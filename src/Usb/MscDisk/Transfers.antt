-- ===== src/Usb/MscDisk/Transfers.antt =====
-- What a transfer that succeeds has made sure of.
use stm32f407vgt.Base.{
  ℕ, ◌+◌, ◌≤◌, ◌≡◌, refl, sym, ap, ◌∙◌, ◌⊎◌, inl, inr, Bool, true, false, Option, none, some, List,
  [], ◌∷◌, ◌++◌, ltb, ◌==◌, arith, Bool-cases, ltb→le,
}
use stm32f407vgt.Storage.Protocol.{storage_block_size}
use stm32f407vgt.Usb.Host.{
  UsbHost, Call, lun_info, read_blocks, write_blocks, locked, usb_host_lock,
}
use stm32f407vgt.Usb.MscDisk.{
  MscLun, is_ready, supported, translate_error, query_capacity, finish_read, transfer_read, read_on,
  read, finish_write, transfer_write, write_on, write,
}

-- The transfers among the calls, as the sectors from the first on and their number.
abbrev pub transfers : List Call → List (ℕ × ℕ)
transfers [] = []
transfers (read_blocks sector count ∷ cs) = (sector, count) ∷ transfers cs
transfers (write_blocks sector count ∷ cs) = (sector, count) ∷ transfers cs
transfers (_ ∷ cs) = transfers cs

-- Either no sector is transferred, or the sectors asked for, once, and then they are in range.
abbrev Once : MscLun → ℕ → ℕ → List Call → Type 0
Once info sector count calls =
    (transfers calls ≡ [])
    ⊎ ((sector + count ≤ info.block_nbr) × (transfers calls ≡ (sector, count) ∷ []))

transfers-append : (cs ds : List Call) → transfers cs ≡ [] → transfers (cs ++ ds) ≡ transfers ds
transfers-append [] ds e = refl
transfers-append (read_blocks sector count ∷ cs) ds e = absurd (cc)
transfers-append (write_blocks sector count ∷ cs) ds e = absurd (cc)
transfers-append (Call.lock_taken ∷ cs) ds e = transfers-append cs ds e
transfers-append (Call.lock_refused ∷ cs) ds e = transfers-append cs ds e
transfers-append (Call.unlocked ∷ cs) ds e = transfers-append cs ds e
transfers-append (Call.lun_info ∷ cs) ds e = transfers-append cs ds e
transfers-append (Call.unit_ready ∷ cs) ds e = transfers-append cs ds e

transfers-append_none :
    (cs ds : List Call) → transfers ds ≡ [] → transfers (cs ++ ds) ≡ transfers cs
transfers-append_none [] ds e = e
transfers-append_none (read_blocks sector count ∷ cs) ds e =
    ap (λ xs. (sector, count) ∷ xs) (transfers-append_none cs ds e)
transfers-append_none (write_blocks sector count ∷ cs) ds e =
    ap (λ xs. (sector, count) ∷ xs) (transfers-append_none cs ds e)
transfers-append_none (Call.lock_taken ∷ cs) ds e = transfers-append_none cs ds e
transfers-append_none (Call.lock_refused ∷ cs) ds e = transfers-append_none cs ds e
transfers-append_none (Call.unlocked ∷ cs) ds e = transfers-append_none cs ds e
transfers-append_none (Call.lun_info ∷ cs) ds e = transfers-append_none cs ds e
transfers-append_none (Call.unit_ready ∷ cs) ds e = transfers-append_none cs ds e

unlocked_last : (c : Call) → transfers (c ∷ Call.unlocked ∷ []) ≡ transfers (c ∷ [])
unlocked_last (read_blocks sector count) = refl
unlocked_last (write_blocks sector count) = refl
unlocked_last Call.lock_taken = refl
unlocked_last Call.lock_refused = refl
unlocked_last Call.unlocked = refl
unlocked_last Call.lun_info = refl
unlocked_last Call.unit_ready = refl

-- What must hold before sectors are transferred: the stick is ready, and its capacity is known, has
-- the block size of the storage protocol, and covers the sectors.
pub record IsCleared {S : Type 0} (usb : UsbHost S MscLun) (s : S) (sector count : ℕ) : Type 0 where
  pub info : MscLun
  pub answered : (query_capacity usb s).0 ≡ some info
  pub stick_ready : is_ready (usb.msc_status s) ≡ true
  pub block_size : info.block_size ≡ storage_block_size
  pub in_range : sector + count ≤ info.block_nbr

module _ {S : Type 0} (usb : UsbHost S MscLun) where
  transfers-locked :
      {A : Type 0} (c : Call) (call : S → A × S) (s : S)
      → (transfers (locked usb c call s).2 ≡ [])
        ⊎ (transfers (locked usb c call s).2 ≡ transfers (c ∷ []))
  unfolding locked
  transfers-locked c call s = elim (Bool-cases (usb_host_lock usb s).0) [
    | inl taken ↦ inr (rw taken (unlocked_last c))
    | inr refused ↦ inl (rw refused refl)
  ]

  transfers-lun_info :
      {A : Type 0} (call : S → A × S) (s : S) → transfers (locked usb lun_info call s).2 ≡ []
  transfers-lun_info call s = elim (transfers-locked lun_info call s) [ inl e ↦ e | inr e ↦ e ]

  transfers-query_capacity : (s : S) → transfers (query_capacity usb s).2 ≡ []
  unfolding query_capacity
  transfers-query_capacity s = elim (Bool-cases (is_ready (usb.msc_status s))) [
    | inl up ↦ rw up (transfers-lun_info usb.get_lun_info s)
    | inr down ↦ rw down refl
  ]

  supported-some :
      (answer : Option (Option MscLun)) (info : MscLun)
      → supported answer ≡ some info
      → info.block_size ≡ storage_block_size
  supported-some none info e = absurd (cc)
  supported-some (some none) info e = absurd (cc)
  supported-some (some (some found)) info e =
      elim (Bool-cases (found.block_size == storage_block_size)) [
        | inl same ↦
            let here : some found ≡ some info = rw same at e in
            let it : found ≡ info = cc in
            let size : found.block_size ≡ storage_block_size = ground arith in
            ap (λ (i : MscLun). i.block_size) (sym it) ∙ size
        | inr differs ↦ let z : none ≡ some info = rw differs at e in absurd (cc)
      ]

  query_capacity_inv :
      (s : S) (info : MscLun)
      → (query_capacity usb s).0 ≡ some info
      → (is_ready (usb.msc_status s) ≡ true) × (info.block_size ≡ storage_block_size)
  unfolding query_capacity
  query_capacity_inv s info e = elim (Bool-cases (is_ready (usb.msc_status s))) [
    | inl up ↦
        let e' : supported (locked usb lun_info usb.get_lun_info s).0 ≡ some info = rw up at e in
        (up, supported-some (locked usb lun_info usb.get_lun_info s).0 info e')
    | inr down ↦ let z : none ≡ some info = rw down at e in absurd (cc)
  ]

  transfers-finish_read :
      (p : Option (Option (List ℕ)) × S × List Call)
      → transfers (finish_read usb p).3 ≡ transfers p.2
  unfolding finish_read translate_error
  transfers-finish_read (none, s, calls) = refl
  transfers-finish_read (some (some bytes), s, calls) = refl
  transfers-finish_read (some none, s, calls) =
      transfers-append_none calls (translate_error usb false s).2
        (transfers-lun_info usb.get_lun_info s)

  transfers-finish_write :
      (p : Option Bool × S × List Call) → transfers (finish_write usb p).2 ≡ transfers p.2
  unfolding finish_write translate_error
  transfers-finish_write (none, s, calls) = refl
  transfers-finish_write (some true, s, calls) = refl
  transfers-finish_write (some false, s, calls) =
      transfers-append_none calls (translate_error usb true s).2
        (transfers-lun_info usb.get_lun_info s)

  transfers-transfer_read :
      (info : MscLun) (sector count : ℕ) (s : S)
      → Once info sector count (transfer_read usb info sector count s).3
  unfolding transfer_read
  transfers-transfer_read info sector count s =
      elim (Bool-cases (ltb info.block_nbr (sector + count))) [
        | inl past ↦ inl (rw past refl)
        | inr inside ↦
            let p = locked usb (read_blocks sector count) (usb.read sector count) s in
            elim (transfers-locked (read_blocks sector count) (usb.read sector count) s) [
              | inl e ↦ inl (rw inside (transfers-finish_read p ∙ e))
              | inr e ↦ inr (
                ltb→le info.block_nbr (sector + count) inside,
                rw inside (transfers-finish_read p ∙ e),
              )
            ]
      ]

  transfers-transfer_write :
      (info : MscLun) (bytes : List ℕ) (sector count : ℕ) (s : S)
      → Once info sector count (transfer_write usb info bytes sector count s).2
  unfolding transfer_write
  transfers-transfer_write info bytes sector count s =
      elim (Bool-cases (ltb info.block_nbr (sector + count))) [
        | inl past ↦ inl (rw past refl)
        | inr inside ↦
            let p = locked usb (write_blocks sector count) (usb.write sector count bytes) s in
            elim (transfers-locked (write_blocks sector count) (usb.write sector count bytes) s) [
              | inl e ↦ inl (rw inside (transfers-finish_write p ∙ e))
              | inr e ↦ inr (
                ltb→le info.block_nbr (sector + count) inside,
                rw inside (transfers-finish_write p ∙ e),
              )
            ]
      ]

-- What the calls of an operation may transfer: nothing, or the sectors asked for, once, all cleared.
abbrev pub MayTransfer : {S : Type 0} → UsbHost S MscLun → S → ℕ → ℕ → List Call → Type 0
MayTransfer usb s sector count calls =
    (transfers calls ≡ [])
    ⊎ (IsCleared usb s sector count × (transfers calls ≡ (sector, count) ∷ []))

module _ {S : Type 0} (usb : UsbHost S MscLun) (s : S) (sector count : ℕ) where
  cleared :
      (info : MscLun) (before after : List Call)
      → (query_capacity usb s).0 ≡ some info
      → transfers before ≡ []
      → Once info sector count after
      → MayTransfer usb s sector count (before ++ after)
  cleared info before after answered none_before (inl e) =
      inl (transfers-append before after none_before ∙ e)
  cleared info before after answered none_before (inr (in_range, e)) =
      let (up, size) = query_capacity_inv usb s info answered in
      inr (
        record {
          info = info;
          answered = answered;
          stick_ready = up;
          block_size = size;
          in_range = in_range;
        },
        transfers-append before after none_before ∙ e,
      )

  read_on-MayTransfer :
      (q : Option MscLun × S × List Call)
      → (query_capacity usb s).0 ≡ q.0
      → transfers q.2 ≡ []
      → MayTransfer usb s sector count (read_on usb sector count q).3
  unfolding read_on
  read_on-MayTransfer (none, s1, calls) answered e = inl e
  read_on-MayTransfer (some info, s1, calls) answered e =
      cleared info calls (transfer_read usb info sector count s1).3 answered e
        (transfers-transfer_read usb info sector count s1)

  write_on-MayTransfer :
      (bytes : List ℕ) (q : Option MscLun × S × List Call)
      → (query_capacity usb s).0 ≡ q.0
      → transfers q.2 ≡ []
      → MayTransfer usb s sector count (write_on usb bytes sector count q).2
  unfolding write_on
  write_on-MayTransfer bytes (none, s1, calls) answered e = inl e
  write_on-MayTransfer bytes (some info, s1, calls) answered e =
      cleared info calls (transfer_write usb info bytes sector count s1).2 answered e
        (transfers-transfer_write usb info bytes sector count s1)

-- A read and a write transfer nothing, or exactly the sectors asked for, once; and the latter only if
-- the stick was ready, its capacity was answered with blocks of 512 bytes, and the sectors lie in it.
pub read_write_cleared :
    {S : Type 0} (usb : UsbHost S MscLun) (s : S) (bytes : List ℕ) (sector count : ℕ)
    → MayTransfer usb s sector count (read usb sector count s).3
      × MayTransfer usb s sector count (write usb bytes sector count s).2
unfolding read write
read_write_cleared usb s bytes sector count =
    let quiet = transfers-query_capacity usb s in
    (
      read_on-MayTransfer usb s sector count (query_capacity usb s) refl quiet,
      write_on-MayTransfer usb s sector count bytes (query_capacity usb s) refl quiet,
    )
