-- ===== src/Guard/Approvals/History.antt =====
-- Sequences of calls on the approval store of guard/approvals.go and guard/approvals_file.go.
use mister_morph.Base.{
  trim_space, ℕ, String, ◌≡◌, refl, sym, ap, ◌∙◌, ◌≢◌, ◌⊎◌, inl, inr, Bool, true, false, some, List,
  [], ◌∷◌, ◌++◌, arith, ◌==◌, eq_iff, if◌then◌else◌, All,
}
use mister_morph.Guard.Approvals.{
  ApprovalStatus, ApprovalRecord, Disk, Faults, prepared, create, is_decision, is_pending, resolved,
  resolve,
}
use mister_morph.Guard.Approvals.Laws.{stored, is_ok, resolution, stored-create, stored-resolve}

-- A call that can change the file, with the clock, the random id and what fails during it.
pub data Operation : Type 0 where
  creation : Faults → ℕ → String → ApprovalRecord → Operation
  resolution_of : Faults → ℕ → String → ApprovalStatus → String → String → Operation

unfoldable pub perform : Operation → Disk → Disk
perform (creation faults now fresh rec) disk = (create faults now fresh rec disk).1
perform (resolution_of faults now id status actor comment) disk =
    (resolve faults now id status actor comment disk).1

unfoldable pub perform_all : List Operation → Disk → Disk
perform_all [] disk = disk
perform_all (op ∷ ops) disk = perform_all ops (perform op disk)

-- The call does not create a record with this id.
unfoldable pub Leaves : String → Operation → Type 0
Leaves j (creation faults now fresh rec) = (prepared now fresh rec).id ≢ j
Leaves j (resolution_of faults now id status actor comment) = Unit

-- One of the calls, a resolution under the id, has decided the pending record.
pub data Decided (j : String) (rec : ApprovalRecord)
    : List Operation → ApprovalRecord → Type 0 where
  decided_now :
      {faults : Faults} {now : ℕ} {id : String} {status : ApprovalStatus} {actor comment : String}
      {ops : List Operation}
      → is_pending rec.status ≡ true
      → is_decision status ≡ true
      → trim_space id ≡ j
      → Decided j rec
          (resolution_of faults now id status actor comment ∷ ops)
          (resolved now status actor comment rec)
  decided_later :
      {op : Operation} {ops : List Operation} {rec' : ApprovalRecord}
      → Decided j rec ops rec'
      → Decided j rec (op ∷ ops) rec'

resolve-is_decision :
    (faults : Faults) (now : ℕ) (id : String) (status : ApprovalStatus) (actor comment : String)
    (disk : Disk)
    → is_ok (resolve faults now id status actor comment disk).0 ≡ true
    → is_decision status ≡ true
unfolding resolve
resolve-is_decision faults now id status actor comment disk h = ground arith

-- The record after one call: the same one, or decided by it.
abbrev Step : String → ApprovalRecord → Operation → Disk → Type 0
Step j rec op disk =
    (stored disk j ≡ some rec)
    ⊎ ((rec' : ApprovalRecord) × (stored disk j ≡ some rec') × Decided j rec (op ∷ []) rec')

-- One call.
step_lem :
    (j : String) (rec : ApprovalRecord) (op : Operation) (disk : Disk)
    → Leaves j op
    → stored disk j ≡ some rec
    → Step j rec op (perform op disk)
unfolding perform Leaves resolution
step_lem j rec (creation faults now fresh r) disk other h = inl (
    stored-create faults now fresh r disk j
    ∙ pick (is_ok (create faults now fresh r disk).0) ((prepared now fresh r).id == j) refl)
  where
    pick :
        (b c : Bool)
        → ((prepared now fresh r).id == j) ≡ c
        → (if b then (if c then some (prepared now fresh r) else stored disk j) else stored disk j)
          ≡ some rec
    pick false c q = h
    pick true false q = h
    pick true true q = absurd (other ((eq_iff (prepared now fresh r).id j).0 q))
step_lem j rec (resolution_of faults now id status actor comment) disk other h =
    pick (is_ok (resolve faults now id status actor comment disk).0) refl (trim_space id == j) refl
  where
    eq :
        (b c : Bool)
        → is_ok (resolve faults now id status actor comment disk).0 ≡ b
        → (trim_space id == j) ≡ c
        → stored (resolve faults now id status actor comment disk).1 j ≡ (
            if b
            then (if c
                then resolution now status actor comment (stored disk (trim_space id))
                else stored disk j)
            else stored disk j)
    eq b c p q = rw (sym p, sym q) (stored-resolve faults now id status actor comment disk j)

    pick :
        (b : Bool)
        → is_ok (resolve faults now id status actor comment disk).0 ≡ b
        → (c : Bool) → (trim_space id == j) ≡ c
        → Step j rec
            (resolution_of faults now id status actor comment)
            (resolve faults now id status actor comment disk).1
    pick false p c q = inl (eq false c p q ∙ h)
    pick true p false q = inl (eq true false p q ∙ h)
    pick true p true q = after (is_pending rec.status) refl
      where
        key : trim_space id ≡ j
        key = (eq_iff (trim_space id) j).0 q

        now_is :
            (b : Bool)
            → is_pending rec.status ≡ b
            → stored (resolve faults now id status actor comment disk).1 j
              ≡ some (if b then resolved now status actor comment rec else rec)
        now_is b o =
            eq true true p q
            ∙ ap (λ i. resolution now status actor comment (stored disk i)) key
            ∙ ap (resolution now status actor comment) h
            ∙ ap (λ x. some (if x then resolved now status actor comment rec else rec)) o

        after :
            (b : Bool)
            → is_pending rec.status ≡ b
            → Step j rec
                (resolution_of faults now id status actor comment)
                (resolve faults now id status actor comment disk).1
        after false o = inl (now_is false o)
        after true o = inr (
          resolved now status actor comment rec,
          now_is true o,
          decided_now o (resolve-is_decision faults now id status actor comment disk p) key,
        )

is_pending-is_decision : (s : ApprovalStatus) → is_decision s ≡ true → is_pending s ≡ false
is_pending-is_decision s h = ground arith

module _ (j : String) (rec : ApprovalRecord) where
  Decided-append :
      (ops more : List Operation) (rec' : ApprovalRecord)
      → Decided j rec ops rec'
      → Decided j rec (ops ++ more) rec'
  Decided-append _ more _ (decided_now o d k) = decided_now o d k
  Decided-append _ more rec' (decided_later {ops} d) =
      decided_later (Decided-append ops more rec' d)

  was_pending :
      (ops : List Operation) (rec' : ApprovalRecord)
      → Decided j rec ops rec'
      → is_pending rec.status ≡ true
  was_pending _ _ (decided_now o d k) = o
  was_pending _ rec' (decided_later {ops} d) = was_pending ops rec' d

  is_closed :
      (ops : List Operation) (rec' : ApprovalRecord)
      → Decided j rec ops rec'
      → is_pending rec'.status ≡ false
  unfolding resolved
  is_closed _ _ (decided_now {status} o d k) = is_pending-is_decision status d
  is_closed _ rec' (decided_later {ops} d) = is_closed ops rec' d

-- As long as no call creates its id again, a stored record is never lost, and it changes at most once:
-- it stays as it is, or it was pending and one of the calls, a resolution of its id, has set the status,
-- actor, comment and time of the decision and nothing else. A decided record stays for ever.
pub stored-perform_all :
    (j : String) (rec : ApprovalRecord) (ops : List Operation) (disk : Disk)
    → All (Leaves j) ops
    → stored disk j ≡ some rec
    → (stored (perform_all ops disk) j ≡ some rec)
      ⊎ ((rec' : ApprovalRecord) × (stored (perform_all ops disk) j ≡ some rec')
          × Decided j rec ops rec')
unfolding perform_all
stored-perform_all j rec [] disk l h = inl h
stored-perform_all j rec (op ∷ ops) disk (l, ls) h = elim (step_lem j rec op disk l h) [
  | inl same ↦ elim (stored-perform_all j rec ops (perform op disk) ls same) [
    | inl q ↦ inl q
    | inr (rec', q, d) ↦ inr (rec', q, decided_later d)
  ]
  | inr (rec1, now, d1) ↦ elim (stored-perform_all j rec1 ops (perform op disk) ls now) [
    | inl q ↦ inr (rec1, q, Decided-append j rec (op ∷ []) ops rec1 d1)
    | inr (rec2, q, d2) ↦
        absurd (ground (arith, is_closed j rec (op ∷ []) rec1 d1, was_pending j rec1 ops rec2 d2))
  ]
]
