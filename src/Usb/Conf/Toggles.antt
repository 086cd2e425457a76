-- ===== src/Usb/Conf/Toggles.antt =====
-- The data toggle of a pipe.
use stm32f407vgt.Base.{
  ℕ, ◌<◌, ◌==◌, ◌≡◌, ◌≢◌, refl, sym, ap, ◌∙◌, inl, inr, Bool-cases, Option, none, some, length,
  get_elem?, set, get_elem?-set_self, get_elem?-set_ne, get_elem?-some,
}
use stm32f407vgt.Usb.Conf.{
  Channel, Channels, toggled, toggle_of, usbh_ll_set_toggle, usbh_ll_get_toggle,
}

toggle_of-toggled : (toggle : ℕ) (c : Channel) → toggle_of (toggled toggle c) ≡ toggle
toggle_of-toggled toggle c = elim (Bool-cases (c.ep_is_in == 0)) [
  | inl out ↦ rw (out, out) refl
  | inr into ↦ rw (into, into) refl
]

set_toggle_known :
    (pipe toggle : ℕ) (hc : Channels) (c : Channel)
    → get_elem? hc pipe ≡ some c
    → usbh_ll_set_toggle pipe toggle hc ≡ set hc pipe (toggled toggle c)
unfolding usbh_ll_set_toggle
set_toggle_known pipe toggle hc c e = rw (e, usbh_ll_set_toggle) refl

get_toggle_as :
    (pipe : ℕ) (hc : Channels) (o : Option Channel)
    → get_elem? hc pipe ≡ o
    → usbh_ll_get_toggle pipe hc ≡ elim o [ none ↦ none | some c ↦ some (toggle_of c) ]
unfolding usbh_ll_get_toggle
get_toggle_as pipe hc o e = rw (e, usbh_ll_get_toggle) refl

-- For a pipe that the controller has: the toggle that was set is the one that is read, whichever way the
-- pipe goes, and the toggle of every other pipe is what it was.
pub usbh_ll_get_toggle-usbh_ll_set_toggle :
    (pipe other toggle : ℕ) (hc : Channels)
    → pipe < length hc
    → (usbh_ll_get_toggle pipe (usbh_ll_set_toggle pipe toggle hc) ≡ some toggle)
      × (other ≢ pipe
          → usbh_ll_get_toggle other (usbh_ll_set_toggle pipe toggle hc)
            ≡ usbh_ll_get_toggle other hc)
usbh_ll_get_toggle-usbh_ll_set_toggle pipe other toggle hc h =
    let (c, e) = get_elem?-some hc pipe h in
    let known = set_toggle_known pipe toggle hc c e in
    let written = set hc pipe (toggled toggle c) in
    (
      ap (usbh_ll_get_toggle pipe) known
          ∙ get_toggle_as pipe written (some (toggled toggle c))
              (get_elem?-set_self hc pipe (toggled toggle c) h)
          ∙ ap some (toggle_of-toggled toggle c),
      λ ne.
          ap (usbh_ll_get_toggle other) known
          ∙ get_toggle_as other written (get_elem? hc other)
              (get_elem?-set_ne hc pipe other (toggled toggle c) (λ same. ne (sym same)))
          ∙ sym (get_toggle_as other hc (get_elem? hc other) refl),
    )
