-- ===== src/Guard/Approvals/Laws.antt =====
-- What one operation of the approval store does, as seen through the records by id.
use mister_morph.Base.{
  trim_space, Bool-cases, sym, eq_iff, ℕ, String, ◌≡◌, refl, ap, ◌∙◌, inl, inr, Bool, true, false,
  Option, none, some, arith, ◌==◌, if◌then◌else◌, Option-cases,
}
use mister_morph.Base.Json.{lookup}
use mister_morph.Base.Assoc.{put, lookup-put}
use mister_morph.Base.Result.{Except, ok, err}
use mister_morph.Guard.Approvals.{
  is_decision, resolve, resolved, resolve_record, is_pending, ApprovalStatus, ApprovalRecord,
  ApprovalFile, Disk, Faults, load_state, save_state, with_lock, put_record, prepared, create,
  created,
}

-- The record with an id, if there is one.
unfoldable pub stored : Disk → String → Option ApprovalRecord
stored none k = none
stored (some f) k = lookup k f.records

abbrev pub is_ok : {A : Type 0} → Except String A → Bool
is_ok (ok _) = true
is_ok (err _) = false

-- The disk after a file is loaded, changed to other records and saved.
stored-save :
    (faults : Faults) (f : ApprovalFile) (disk : Disk) (k j : String) (rec : ApprovalRecord)
    → stored (save_state faults (record f { records = put k rec f.records }) disk).1 j ≡ (
        if is_ok (save_state faults (record f { records = put k rec f.records }) disk).0
        then (if k == j then some rec else lookup j f.records)
        else stored disk j)
unfolding save_state stored
stored-save faults f disk k j rec = ground (arith, lookup-put k j rec f.records)

-- A file that is loaded has the records of the disk.
load-stored :
    (faults : Faults) (disk : Disk) (f : ApprovalFile) (j : String)
    → load_state faults disk ≡ ok f
    → lookup j f.records ≡ stored disk j
unfolding load_state stored lookup
load-stored faults disk f j h = ground arith

put_record_lem :
    (faults : Faults) (k j : String) (rec : ApprovalRecord) (disk : Disk)
    → stored (put_record faults k rec disk).1 j ≡ (
        if is_ok (put_record faults k rec disk).0
        then (if k == j then some rec else stored disk j)
        else stored disk j)
unfolding put_record
put_record_lem faults k j rec disk = pick (load_state faults disk) refl
  where
    pick :
        (x : Except String ApprovalFile)
        → load_state faults disk ≡ x
        → (let r : Except String (Unit {0}) × Disk = elim x [
          | err m ↦ (err m, disk)
          | ok f ↦ save_state faults (record f { records = put k rec f.records }) disk
        ] in
            stored r.1 j
            ≡ (if is_ok r.0 then (if k == j then some rec else stored disk j) else stored disk j))
    pick (err m) h = refl
    pick (ok f) h =
        stored-save faults f disk k j rec
        ∙ ap
            (λ t.
              if is_ok (save_state faults (record f { records = put k rec f.records }) disk).0
              then (if k == j then some rec else t)
              else stored disk j)
            (load-stored faults disk f j h)

-- Create, on success, stores the prepared record under its id and keeps every other one; a call that
-- fails changes no record.
pub stored-create :
    (faults : Faults) (now : ℕ) (fresh : String) (rec : ApprovalRecord) (disk : Disk) (j : String)
    → stored (create faults now fresh rec disk).1 j ≡ (
        if is_ok (create faults now fresh rec disk).0
        then (if (prepared now fresh rec).id == j
            then some (prepared now fresh rec)
            else stored disk j)
        else stored disk j)
unfolding create
stored-create faults now fresh rec disk j = elim (Option-cases faults.lock) [
  | inl free ↦
      rw (free, with_lock)
        (keeps (put_record faults r.id r disk) (put_record_lem faults r.id j r disk))
  | inr (m, held) ↦ rw (held, with_lock) refl
]
  where
    r : ApprovalRecord
    r = prepared now fresh rec

    keeps :
        (x : Except String (Unit {0}) × Disk)
        → stored x.1 j
          ≡ (if is_ok x.0 then (if r.id == j then some r else stored disk j) else stored disk j)
        → stored (created r.id x).1 j ≡ (
            if is_ok (created r.id x).0
            then (if r.id == j then some r else stored disk j)
            else stored disk j)
    keeps (ok _, d) h = h
    keeps (err m, d) h = h

-- What a resolution makes of a record: a pending one is resolved, another stays.
unfoldable pub resolution :
    ℕ → ApprovalStatus → String → String → Option ApprovalRecord → Option ApprovalRecord
resolution now status actor comment none = none
resolution now status actor comment (some rec) =
    some (if is_pending rec.status then resolved now status actor comment rec else rec)

module _ (faults : Faults) (now : ℕ) (key : String) (status : ApprovalStatus)
    (actor comment : String) (disk : Disk) (j : String) where
  -- What the records are after a resolution of `key` that succeeds or fails.
  abbrev pub Resolves : Except String (Unit {0}) × Disk → Type 0
  Resolves x = stored x.1 j ≡ (
      if is_ok x.0
      then (if key == j
          then resolution now status actor comment (stored disk key)
          else stored disk j)
      else stored disk j)

  resolve_record_lem : Resolves (resolve_record faults now key status actor comment disk)
  unfolding resolve_record resolution
  resolve_record_lem = load (load_state faults disk) refl
    where
      at_key :
          (f : ApprovalFile)
          → load_state faults disk ≡ ok f
          → (o : Option ApprovalRecord) → lookup key f.records ≡ o
          → stored disk key ≡ o
      at_key f h o q = sym (load-stored faults disk f key h) ∙ q

      unchanged :
          (f : ApprovalFile)
          → load_state faults disk ≡ ok f
          → (o : Option ApprovalRecord) → lookup key f.records ≡ o
          → resolution now status actor comment o ≡ o
          → Resolves (ok tt, disk)
      unchanged f h o q same_o = elim (Bool-cases (key == j)) [
        | inl same ↦ rw same (
            sym (load-stored faults disk f j h)
            ∙ ap (λ i. lookup i f.records) (sym ((eq_iff key j).0 same))
            ∙ q
            ∙ sym same_o
            ∙ sym (ap (resolution now status actor comment) (at_key f h o q)))
        | inr other ↦ rw other refl
      ]

      find :
          (f : ApprovalFile)
          → load_state faults disk ≡ ok f
          → (o : Option ApprovalRecord) → lookup key f.records ≡ o
          → Resolves (elim o [
            | none ↦ (ok tt, disk)
            | some rec ↦
                if is_pending rec.status
                then save_state faults
                    (record f {
                      records = put key (resolved now status actor comment rec) f.records;
                    })
                    disk
                else (ok tt, disk)
          ])
      find f h none q = unchanged f h none q refl
      find f h (some rec) q = elim (Bool-cases (is_pending rec.status)) [
        | inl is_open ↦
            rw (is_open, at_key f h (some rec) q, is_open)
              (stored-save faults f disk key j (resolved now status actor comment rec)
                ∙ ap
                    (λ t.
                      if is_ok
                        (save_state faults
                          (record f {
                            records = put key (resolved now status actor comment rec) f.records;
                          })
                          disk).0
                      then (if key == j then some (resolved now status actor comment rec) else t)
                      else stored disk j)
                    (load-stored faults disk f j h))
        | inr is_closed ↦ rw is_closed (
            unchanged f h (some rec) q
              (ap (λ b. some (if b then resolved now status actor comment rec else rec)) is_closed))
      ]

      load :
          (x : Except String ApprovalFile)
          → load_state faults disk ≡ x
          → Resolves (elim x [
            | err m ↦ (err m, disk)
            | ok f ↦ elim (lookup key f.records) [
              | none ↦ (ok tt, disk)
              | some rec ↦
                  if is_pending rec.status
                  then save_state faults
                      (record f {
                        records = put key (resolved now status actor comment rec) f.records;
                      })
                      disk
                  else (ok tt, disk)
            ]
          ])
      load (err m) h = refl
      load (ok f) h = find f h (lookup key f.records) refl

-- Resolve, on success, resolves the record under the trimmed id if it is pending, and changes no other
-- one; a call that fails changes no record.
pub stored-resolve :
    (faults : Faults) (now : ℕ) (id : String) (status : ApprovalStatus) (actor comment : String)
    (disk : Disk) (j : String)
    → Resolves faults now
        (trim_space id)
        status
        actor
        comment
        disk
        j
        (resolve faults now id status actor comment disk)
unfolding resolve with_lock
stored-resolve faults now id status actor comment disk j = elim (Bool-cases (trim_space id == "")) [
  | inl b ↦ rw b refl
  | inr b ↦ elim (Bool-cases (is_decision status)) [
    | inl c ↦ elim (Option-cases faults.lock) [
      | inl free ↦
          rw (b, c, free)
            (resolve_record_lem faults now (trim_space id) status actor comment disk j)
      | inr (m, held) ↦ rw (b, c, held) refl
    ]
    | inr c ↦ rw (b, c) refl
  ]
]
