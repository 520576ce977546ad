-- ===== src/Agent/Resume/Authorised.antt =====
-- When Resume of agent/engine_resume.go enters the loop.
use mathlib.Core.Path.{subst}
use mister_morph.Base.{
  none, arith, trim_space, concat, is_blank, ◌≤◌, String, ◌≡◌, refl, Bool, true, false, ◌||◌, some,
  [], ◌∷◌, ◌==◌, if◌then◌else◌,
}
use mister_morph.Base.Result.{Except, ok, err}
use mister_morph.Guard.Types.{approved}
use mister_morph.Guard.Approvals.{ApprovalRecord}
use mister_morph.Agent.State.{ResumeState}
use mister_morph.Agent.Host.{GuardOps, Engine}
use mister_morph.Agent.Engine.Force.{Outcome}
use mister_morph.Agent.Engine.ToolGuard.{active_guard, pre_action}
use mister_morph.Agent.Engine.Loop.{run_loop}
use mister_morph.Agent.Resume.{
  ltb, leb, not_approved_final, Option, show_nat, is_approved, check_state, check_approval,
  check_record, resume, ApprovalStatus, Resumption, Resumed, refused_with, still_pending, ran,
  resumed_state, check_hash,
}

-- An approved record that is not expired and whose hash, if it has one, is that of the stored call; the
-- outcome is that of the loop on the stored state.
pub record Authorised {W : Type 0} (e : Engine W) (r : Resumption W) (id : String) (w : W)
    (o : Outcome W) : Type 0 where
  pub rec : ApprovalRecord
  pub found : r.get_approval id w ≡ ok (some rec)
  pub was_approved : rec.status ≡ approved
  pub in_time : e.now w ≤ rec.expires_at
  pub state : ResumeState
  pub unmarshalled : r.unmarshal_resume rec.resume_state ≡ ok state
  pub hash : String
  pub hashed : r.action_hash (pre_action state.pending_tool.tool_call) ≡ ok hash
  pub bound : (is_blank rec.action_hash || trim_space rec.action_hash == hash) ≡ true
  pub outcome : o ≡ run_loop e (resumed_state r.extract_file_write_paths state) w

status_approved : (s : ApprovalStatus) → is_approved s ≡ true → s ≡ approved
status_approved s h = ground arith

module _ {W : Type 0} (e : Engine W) (r : Resumption W) (id : String) (w : W) where
  -- What holds of each way to end.
  abbrev Ends : Resumed W → Type 0
  Ends (refused_with m) = Unit
  Ends (still_pending f) = Unit
  Ends (ran o) = Authorised e r id w o

  check_hash-Ends :
      (rec : ApprovalRecord) (rs : ResumeState)
      → r.get_approval id w ≡ ok (some rec)
      → rec.status ≡ approved
      → e.now w ≤ rec.expires_at
      → r.unmarshal_resume rec.resume_state ≡ ok rs
      → Ends (check_hash e r rec rs w)
  unfolding check_hash
  check_hash-Ends rec rs found was_approved in_time un =
      by_hash (r.action_hash (pre_action rs.pending_tool.tool_call)) refl
    where
      by_match :
          (h : String) (b : Bool)
          → r.action_hash (pre_action rs.pending_tool.tool_call) ≡ ok h
          → (is_blank rec.action_hash || trim_space rec.action_hash == h) ≡ b
          → Ends (
              if b
              then ran (run_loop e (resumed_state r.extract_file_write_paths rs) w)
              else refused_with (
                  concat ("approval action_hash mismatch (expected " ∷ rec.action_hash ∷ ")" ∷ [])))
      by_match h true q m = record {
        rec = rec;
        found = found;
        was_approved = was_approved;
        in_time = in_time;
        state = rs;
        unmarshalled = un;
        hash = h;
        hashed = q;
        bound = m;
        outcome = refl;
      }
      by_match h false q m = tt

      by_hash :
          (x : Except String String)
          → r.action_hash (pre_action rs.pending_tool.tool_call) ≡ x
          → Ends (elim x as (λ _. Resumed W) [
            | err m ↦ refused_with m
            | ok h ↦
                if is_blank rec.action_hash || trim_space rec.action_hash == h
                then ran (run_loop e (resumed_state r.extract_file_write_paths rs) w)
                else refused_with (
                    concat
                      ("approval action_hash mismatch (expected " ∷ rec.action_hash ∷ ")" ∷ []))
          ])
      by_hash (err m) q = tt
      by_hash (ok h) q = by_match h _ q refl

  check_state-Ends :
      (rec : ApprovalRecord)
      → r.get_approval id w ≡ ok (some rec)
      → rec.status ≡ approved
      → e.now w ≤ rec.expires_at
      → Ends (check_state e r rec w)
  unfolding check_state
  check_state-Ends rec found was_approved in_time =
      by_state (r.unmarshal_resume rec.resume_state) refl
    where
      by_version :
          (rs : ResumeState) (b : Bool)
          → r.unmarshal_resume rec.resume_state ≡ ok rs
          → Ends (
              if b
              then check_hash e r rec rs w
              else refused_with
                  (concat ("unsupported resume_state version: " ∷ show_nat rs.version ∷ [])))
      by_version rs true q = check_hash-Ends rec rs found was_approved in_time q
      by_version rs false q = tt

      by_state :
          (x : Except String ResumeState)
          → r.unmarshal_resume rec.resume_state ≡ x
          → Ends (elim x as (λ _. Resumed W) [
            | err m ↦ refused_with m
            | ok rs ↦
                if leb rs.version 1
                then check_hash e r rec rs w
                else refused_with
                    (concat ("unsupported resume_state version: " ∷ show_nat rs.version ∷ []))
          ])
      by_state (err m) q = tt
      by_state (ok rs) q = by_version rs _ q

  check_record-Ends :
      (rec : ApprovalRecord)
      → r.get_approval id w ≡ ok (some rec)
      → Ends (check_record e r id rec w)
  unfolding check_record
  check_record-Ends rec found = by_time (ltb rec.expires_at (e.now w)) refl
    where
      by_text :
          (b : Bool)
          → rec.status ≡ approved
          → e.now w ≤ rec.expires_at
          → Ends (
              if b
              then refused_with (concat ("approval has no resume_state: " ∷ id ∷ []))
              else check_state e r rec w)
      by_text true a t = tt
      by_text false a t = check_state-Ends rec found a t

      by_status :
          (b : Bool)
          → is_approved rec.status ≡ b
          → e.now w ≤ rec.expires_at
          → Ends (
              if b
              then (if rec.resume_state == ""
                  then refused_with (concat ("approval has no resume_state: " ∷ id ∷ []))
                  else check_state e r rec w)
              else still_pending (not_approved_final id rec))
      by_status true q t = by_text _ (status_approved rec.status q) t
      by_status false q t = tt

      by_time :
          (b : Bool)
          → ltb rec.expires_at (e.now w) ≡ b
          → Ends (
              if b
              then refused_with (concat ("approval is expired: " ∷ id ∷ []))
              else if is_approved rec.status
              then (if rec.resume_state == ""
                  then refused_with (concat ("approval has no resume_state: " ∷ id ∷ []))
                  else check_state e r rec w)
              else still_pending (not_approved_final id rec))
      by_time true q = tt
      by_time false q = by_status _ refl (ground arith)

  check_approval-Ends : Ends (check_approval e r id w)
  unfolding check_approval
  check_approval-Ends = pick (r.get_approval id w) refl
    where
      found? :
          (o : Option ApprovalRecord)
          → r.get_approval id w ≡ ok o
          → Ends (elim o as (λ _. Resumed W) [
            | none ↦ refused_with (concat ("approval not found: " ∷ id ∷ []))
            | some rec ↦ check_record e r id rec w
          ])
      found? none q = tt
      found? (some rec) q = check_record-Ends rec q

      pick :
          (x : Except String (Option ApprovalRecord))
          → r.get_approval id w ≡ x
          → Ends (elim x as (λ _. Resumed W) [
            | err m ↦ refused_with m
            | ok o ↦ elim o as (λ _. Resumed W) [
              | none ↦ refused_with (concat ("approval not found: " ∷ id ∷ []))
              | some rec ↦ check_record e r id rec w
            ]
          ])
      pick (err m) q = tt
      pick (ok o) q = found? o q

resume-Ends :
    {W : Type 0} (e : Engine W) (r : Resumption W) (id : String) (w : W)
    → Ends e r (trim_space id) w (resume e r id w)
unfolding resume
resume-Ends {W} e r id w = pick (active_guard e)
  where
    by_id :
        (b : Bool)
        → Ends e r (trim_space id) w (
            if b
            then refused_with "missing approval_request_id"
            else check_approval e r (trim_space id) w)
    by_id true = tt
    by_id false = check_approval-Ends e r (trim_space id) w

    pick :
        (o : Option (GuardOps W))
        → Ends e r (trim_space id) w (elim o as (λ _. Resumed W) [
          | none ↦ refused_with "guard is not enabled"
          | some g ↦
              if trim_space id == ""
              then refused_with "missing approval_request_id"
              else check_approval e r (trim_space id) w
        ])
    pick none = tt
    pick (some g) = by_id _

-- Resume enters the loop only for a stored record under the trimmed id that is approved and not yet
-- expired, whose state can be read, and whose action hash, if it is not blank, is the hash of the
-- tool call in that state; the outcome is then that of the loop on the stored state.
pub resume-Authorised :
    {W : Type 0} (e : Engine W) (r : Resumption W) (id : String) (w : W) (o : Outcome W)
    → resume e r id w ≡ ran o
    → Authorised e r (trim_space id) w o
resume-Authorised e r id w o h = subst (Ends e r (trim_space id) w) h (resume-Ends e r id w)
