-- ===== src/Control/Publish/Agree.antt =====
-- The pointer and the row of a function after `try_reconcile` of
-- crates/control/src/lib.rs.
use warpline.Base.{
  ◌≡◌, refl, sym, ap, ◌∙◌, ◌⊎◌, inl, inr, true, not, ◌||◌, Option, none, some, arith, if◌then◌else◌,
  Bool-cases, ok, err, ◌>>◌, map_err, Result-cases, Bytes, bytes_eq, pair_beq, pair_eq,
}
use warpline.Types.Names.{valid_name}
use warpline.Registry.Disk.{Disk}
use warpline.Registry.Pointer.{Error, Io, remove_pointer, read_pointer}
use warpline.Registry.Pointer.Laws.{write_pointer_cases, read-remove_pointer}
use warpline.Runtime.Errors.{PublishError, into_publish_err}
use warpline.Runtime.Publish.{activate, activate_digest, deactivate, active}
use warpline.Runtime.Publish.Laws.{active-activate, active_valid}
use warpline.Pg.Schema.{Database}
use warpline.Control.Publish.{PublishNetwork, select_hash, settle, ReconcileError, try_reconcile}

-- An activation that fails leaves the disk as it was.
pub activate_failed :
    (sys : Io) (disk : Disk) (tenant func digest : Bytes) (e : PublishError)
    → (activate sys disk tenant func digest).1 ≡ err e
    → (activate sys disk tenant func digest).0 ≡ disk
unfolding activate
activate_failed sys disk tenant func digest e h =
    ground (arith, write_pointer_cases sys disk tenant func digest)

activate_digest-activate :
    (sys : Io) (disk : Disk) (tenant func digest : Bytes)
    → (activate_digest sys disk tenant func digest).1 ≡ ok tt
    → activate_digest sys disk tenant func digest ≡ activate sys disk tenant func digest
unfolding activate_digest
activate_digest-activate sys disk tenant func digest h = ground arith

remove_pointer_failed :
    (disk : Disk) (tenant func : Bytes) (e : Error)
    → (remove_pointer disk tenant func).1 ≡ err e
    → (remove_pointer disk tenant func).0 ≡ disk
unfolding remove_pointer
remove_pointer_failed disk tenant func e h = ground arith

-- After a deactivation that succeeds the pair is not active, and others are as before.
active-deactivate :
    (disk : Disk) (tenant func t f : Bytes)
    → (deactivate disk tenant func).1 ≡ ok tt
    → valid_name t ≡ true
    → valid_name f ≡ true
    → active (deactivate disk tenant func).0 t f
      ≡ (if pair_beq (tenant, func) (t, f) then ok none else active disk t f)
unfolding deactivate
active-deactivate disk tenant func t f h vt vf =
    elim (Bool-cases (not (valid_name tenant) || not (valid_name func))) [
      | inl bad ↦ absurd (ground arith)
      | inr good ↦
          let r = remove_pointer disk tenant func in
          elim (read-remove_pointer disk tenant func t f) [
            | inl (removed, read) ↦
                rw (good, deactivate)
                  (active_valid r.0 t f vt vf ∙ ap (map_err into_publish_err) read ∙ chosen)
            | inr (failed, why) ↦ absurd (ground arith)
          ]
    ]
  where
    chosen :
        map_err into_publish_err
          (if pair_beq (tenant, func) (t, f) then ok none else read_pointer disk t f)
        ≡ (if pair_beq (tenant, func) (t, f) then ok none else active disk t f)
    chosen = elim (Bool-cases (pair_beq (tenant, func) (t, f))) [
      | inl same ↦ rw same refl
      | inr other ↦ rw other (sym (active_valid disk t f vt vf))
    ]

-- A settled pointer is active with the hash, or not at all where there is none.
pub active-settle :
    (sys : Io) (disk : Disk) (tenant func : Bytes) (hash : Option Bytes) (t f : Bytes)
    → (settle sys disk tenant func hash).1 ≡ ok tt
    → valid_name t ≡ true
    → valid_name f ≡ true
    → active (settle sys disk tenant func hash).0 t f
      ≡ (if pair_beq (tenant, func) (t, f) then ok hash else active disk t f)
unfolding settle
active-settle sys disk tenant func none t f h vt vf = active-deactivate disk tenant func t f h vt vf
active-settle sys disk tenant func (some hash) t f h vt vf =
    let eq = activate_digest-activate sys disk tenant func hash h in
    ap (λ x. active x.0 t f) eq
    ∙ active-activate sys disk tenant func hash t f (sym (ap (λ x. x.1) eq) ∙ h) vt vf

-- A reconciliation that succeeds is a settled pointer.
pub try_reconcile_ok :
    (net : PublishNetwork) (sys : Io) (d : Database) (disk : Disk) (tenant func : Bytes)
    → (try_reconcile net sys d disk tenant func).1 ≡ ok tt
    → ((settle sys disk tenant func (select_hash d tenant func)).1 ≡ ok tt)
      × ((try_reconcile net sys d disk tenant func).0
          ≡ (settle sys disk tenant func (select_hash d tenant func)).0)
unfolding try_reconcile
try_reconcile_ok net sys d disk tenant func h =
    elim (Result-cases (net.begin >> net.timeouts >> net.lock >> net.select)) [
      | inr (e, q) ↦ absurd (ground arith)
      | inl (u, q) ↦
          elim (Result-cases (settle sys disk tenant func (select_hash d tenant func)).1) [
            | inr (e, p) ↦ absurd (ground arith)
            | inl (v, p) ↦ rw (q, try_reconcile) (rw p (refl, refl))
          ]
    ]

-- A reconciliation that succeeds leaves the pointer on what the function's row says, whatever it was
-- before, and removes it where there is no row; the pointers of other valid names stay.
pub active-try_reconcile :
    (net : PublishNetwork) (sys : Io) (d : Database) (disk : Disk) (tenant func t f : Bytes)
    → (try_reconcile net sys d disk tenant func).1 ≡ ok tt
    → valid_name t ≡ true
    → valid_name f ≡ true
    → active (try_reconcile net sys d disk tenant func).0 t f
      ≡ (if pair_beq (tenant, func) (t, f) then ok (select_hash d tenant func) else active disk t f)
active-try_reconcile net sys d disk tenant func t f h vt vf =
    let (v, s) = try_reconcile_ok net sys d disk tenant func h in
    rw s (active-settle sys disk tenant func (select_hash d tenant func) t f v vt vf)

activate_digest_failed :
    (sys : Io) (disk : Disk) (tenant func digest : Bytes) (e : PublishError)
    → (activate_digest sys disk tenant func digest).1 ≡ err e
    → (activate_digest sys disk tenant func digest).0 ≡ disk
unfolding activate_digest
activate_digest_failed sys disk tenant func digest e h =
    ground (arith, activate_failed sys disk tenant func digest e)

deactivate_failed :
    (disk : Disk) (tenant func : Bytes) (e : PublishError)
    → (deactivate disk tenant func).1 ≡ err e
    → (deactivate disk tenant func).0 ≡ disk
unfolding deactivate
deactivate_failed disk tenant func e h = elim (Result-cases (remove_pointer disk tenant func).1) [
  | inl (u, p) ↦ ground arith
  | inr (x, p) ↦ ground (arith, remove_pointer_failed disk tenant func x p)
]

-- A pointer that could not be settled is as it was.
settle_failed :
    (sys : Io) (disk : Disk) (tenant func : Bytes) (hash : Option Bytes) (e : PublishError)
    → (settle sys disk tenant func hash).1 ≡ err e
    → (settle sys disk tenant func hash).0 ≡ disk
unfolding settle
settle_failed sys disk tenant func none e h = deactivate_failed disk tenant func e h
settle_failed sys disk tenant func (some hash) e h =
    activate_digest_failed sys disk tenant func hash e h

-- A reconciliation that fails has left the disk as it was, or has settled the pointer and lost the
-- end of its transaction.
pub try_reconcile_failed :
    (net : PublishNetwork) (sys : Io) (d : Database) (disk : Disk) (tenant func : Bytes)
    (e : ReconcileError)
    → (try_reconcile net sys d disk tenant func).1 ≡ err e
    → ((try_reconcile net sys d disk tenant func).0 ≡ disk)
      ⊎ (((settle sys disk tenant func (select_hash d tenant func)).1 ≡ ok tt)
          × ((try_reconcile net sys d disk tenant func).0
              ≡ (settle sys disk tenant func (select_hash d tenant func)).0))
unfolding try_reconcile
try_reconcile_failed net sys d disk tenant func e h =
    elim (Result-cases (net.begin >> net.timeouts >> net.lock >> net.select)) [
      | inr (x, q) ↦ rw (q, try_reconcile) (inl refl)
      | inl (u, q) ↦
          elim (Result-cases (settle sys disk tenant func (select_hash d tenant func)).1) [
            | inr (x, p) ↦
                rw (q, try_reconcile)
                  (rw p (inl (settle_failed sys disk tenant func (select_hash d tenant func) x p)))
            | inl (v, p) ↦ rw (q, try_reconcile) (rw p (inr (refl, refl)))
          ]
    ]
