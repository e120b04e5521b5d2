-- ===== src/P2p/Transfer/Receiver/Steps.antt =====
-- What the answers to one peer leave of the transfers of the others, but for chunks.
use fyles_release.Base.{ℕ, ◌≤◌, ◌≡◌, Option, none, some, arith, nat_eq, Option-cases, inl, inr}
use fyles_release.P2p.Types.{FylesId, ContactId, PeerId}
use fyles_release.P2p.Data.IdleExpiryMap.{write_through, take}
use fyles_release.P2p.Data.IdleExpiryMap.Entry.{
  IdleEntry, occupied, vacant, entry, occupied_get, entry_insert,
}
use fyles_release.P2p.Data.IdleExpiryMap.View.{IsWell}
use fyles_release.P2p.Data.IdleExpiryMap.Local.{
  Local, Local-refl, Local-trans, Local-later, entry_key, entry_insert-Local, entry_key-entry,
  entry-Local, occupied_get-Local, write_through-Local, take-Local, occupied_destruct-Local,
}
use fyles_release.P2p.Transfer.ReceiveManager.{ReceiveManager, reset}
use fyles_release.P2p.Transfer.Receiver.{
  World, Receivers, respond_new, respond_continue, respond_continue_entry,
  respond_continue_from_file, respond_abort, respond_abort_of, respond_done, respond_done_entry,
  respond_done_seen, respond_finalize,
}

module _ {F D : Type 0} (w : World F D) (node : PeerId) (contact : Option ContactId) where
  abbrev pub Stays : Receivers F D → Receivers F D → Type 0
  Stays m m' = Local node w.ended m m'

  module _ (m : Receivers F D) (well : IsWell m) where
    pub stays : Stays m m
    stays = Local-refl node w.ended m well

    pub dropped : (at : ℕ) → Stays m (take m node at).1
    dropped at = take-Local node w.ended at m well

    pub rewritten : (r : ReceiveManager F D) → Stays m (write_through m node r)
    rewritten r = write_through-Local node w.ended m r well

    inserted :
        (at : ℕ) (slot : IdleEntry PeerId) (r : ReceiveManager F D)
        → entry_key slot ≡ node
        → Stays m (entry_insert m slot r at).1
    inserted at slot r q = entry_insert-Local node w.ended at m slot r q well

  pub respond_new-Local :
      (m : Receivers F D) (slot : IdleEntry PeerId) (filerequest file_name size transfer : ℕ)
      → IsWell m
      → entry_key slot ≡ node
      → Stays m
          (respond_new w node contact m slot filerequest file_name size transfer).receiving_files
  unfolding respond_new
  respond_new-Local m slot filerequest file_name size transfer well q =
      grind (arith, stays m well, λ (r : ReceiveManager F D). inserted m well w.used slot r q)

  respond_continue_from_file-Local :
      (m : Receivers F D) (slot : IdleEntry PeerId) (filerequest transfer : ℕ)
      → IsWell m
      → entry_key slot ≡ node
      → Stays m
          (respond_continue_from_file w node contact m slot filerequest transfer).receiving_files
  unfolding respond_continue_from_file
  respond_continue_from_file-Local m slot filerequest transfer well q =
      grind (arith, stays m well, λ (r : ReceiveManager F D). inserted m well w.ended slot r q)

  pub then-Stays : (m m' m'' : Receivers F D) → Stays m m' → Stays m' m'' → Stays m m''
  then-Stays m m' m'' p q = Local-trans node w.ended w.ended m m' m'' (omega arith) p q

  respond_continue_entry-Local :
      (m : Receivers F D) (slot : IdleEntry PeerId) (seen : Option (ReceiveManager F D))
      (filerequest transfer : ℕ)
      → IsWell m
      → entry_key slot ≡ node
      → Stays m
          (respond_continue_entry w node contact m slot seen filerequest transfer).receiving_files
  unfolding respond_continue_entry
  respond_continue_entry-Local m slot none filerequest transfer well q =
      respond_continue_from_file-Local m slot filerequest transfer well q
  respond_continue_entry-Local m slot (some r) filerequest transfer well q = ground (
    arith,
    respond_continue_from_file-Local m slot filerequest transfer well q,
    rewritten m well (reset r),
  )

  respond_abort_of-Local :
      (m : Receivers F D) (r : ReceiveManager F D) (requested : Option FylesId)
      → IsWell m
      → Stays m (respond_abort_of w node contact m r requested).receiving_files
  unfolding respond_abort_of
  respond_abort_of-Local m r requested well = grind (arith, stays m well)

  pub respond_abort-Local :
      (m : Receivers F D) (requested : Option FylesId)
      → IsWell m
      → Stays m (respond_abort w node contact m requested).receiving_files
  unfolding respond_abort
  respond_abort-Local m requested well =
      let m' = (take m node w.used).1 in
      let p = dropped m well w.used in
      elim (Option-cases (take m node w.used).0) [
        | inl q ↦ ground (arith, p)
        | inr (r, q) ↦ ground (
          arith,
          then-Stays m m' (respond_abort_of w node contact m' r requested).receiving_files p
              (respond_abort_of-Local m' r requested p.well),
        )
      ]

  respond_finalize-Local :
      (m : Receivers F D) (r : ReceiveManager F D) (transfer : FylesId)
      → IsWell m
      → Stays m (respond_finalize w node contact m r transfer).receiving_files
  unfolding respond_finalize
  respond_finalize-Local m r transfer well = grind (arith, stays m well)

  respond_done_seen-Local :
      (m : Receivers F D) (seen : Option (ReceiveManager F D)) (transfer : FylesId)
      → IsWell m
      → Stays m (respond_done_seen w node contact m seen transfer).receiving_files
  unfolding respond_done_seen
  respond_done_seen-Local m none transfer well = stays m well
  respond_done_seen-Local m (some r) transfer well = ground (
    arith,
    stays m well,
    respond_finalize-Local m r transfer well,
    occupied_destruct-Local node w.ended m well,
  )

  module _ (in_time : w.used ≤ w.ended) where
    pub respond_continue-Local :
        (m : Receivers F D) (slot : IdleEntry PeerId) (filerequest transfer : ℕ)
        → IsWell m
        → entry_key slot ≡ node
        → Stays m (respond_continue w node contact m slot filerequest transfer).receiving_files
    unfolding respond_continue
    respond_continue-Local m (vacant key) filerequest transfer well q =
        respond_continue_entry-Local m (vacant key) none filerequest transfer well q
    respond_continue-Local m (occupied key) filerequest transfer well q =
        let m' = (occupied_get m key w.used).1 in
        let seen = (occupied_get m key w.used).0 in
        let p : Stays m m' = rw q (
          Local-later node w.used w.ended m (occupied_get m node w.used).1 in_time
            (occupied_get-Local node w.used m well)) in
        then-Stays m m'
          (respond_continue_entry w node contact m' (occupied key) seen filerequest
            transfer).receiving_files
          p (respond_continue_entry-Local m' (occupied key) seen filerequest transfer p.well q)

    respond_done_entry-Local :
        (m : Receivers F D) (slot : IdleEntry PeerId) (transfer : FylesId)
        → IsWell m
        → entry_key slot ≡ node
        → Stays m (respond_done_entry w node contact m slot transfer).receiving_files
    unfolding respond_done_entry
    respond_done_entry-Local m (vacant key) transfer well q = stays m well
    respond_done_entry-Local m (occupied key) transfer well q =
        let m' = (occupied_get m key w.ended).1 in
        let seen = (occupied_get m key w.ended).0 in
        let p : Stays m m' = rw q (occupied_get-Local node w.ended m well) in
        then-Stays m m' (respond_done_seen w node contact m' seen transfer).receiving_files p
          (respond_done_seen-Local m' seen transfer p.well)

    pub respond_done-Local :
        (m : Receivers F D) (transfer : FylesId)
        → IsWell m
        → Stays m (respond_done w node contact m transfer).receiving_files
    unfolding respond_done
    respond_done-Local m transfer well =
        let m' = (entry m node w.used).1 in
        let slot = (entry m node w.used).0 in
        let p : Stays m m' =
          Local-later node w.used w.ended m m' in_time (entry-Local node w.used m well) in
        then-Stays m m' (respond_done_entry w node contact m' slot transfer).receiving_files p
          (respond_done_entry-Local m' slot transfer p.well (entry_key-entry node m w.used))
