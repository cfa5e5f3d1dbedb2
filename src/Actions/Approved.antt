-- ===== src/Actions/Approved.antt =====
-- src/services/actions.ts: no effect without an approval.
use poolstatis.Common.{
  ◌≡◌, refl, sym, subst, inl, inr, Bool, true, false, Option, none, some, String, List, [], ◌∷◌,
  Map, get, get-set, str_eq, eq_iff, Bool-cases, All,
}
use poolstatis.Actions.Table.{Status, approved, executed, failed, Action, AuditEvent, Tables, write}

-- Whether a status comes after an approval.
abbrev pub has_approval : Status → Bool
has_approval approved = true
has_approval executed = true
has_approval failed = true
has_approval _ = false

unfoldable pub is_some : Option String → Bool
is_some none = false
is_some (some _) = true

-- A row under an id that is approved by someone exactly when its status says so.
abbrev pub IsHonest : String → Action → Type 0
IsHonest id a = (a.id ≡ id) × (is_some a.approved_by ≡ has_approval a.status)

-- What is being executed has a row that was approved.
abbrev pub HasApproved : Map Action → Action × String → Type 0
HasApproved rows (a, _) = (r : Action) × ((get rows a.id ≡ some r) × (has_approval r.status ≡ true))

pub record IsApproved (t : Tables) : Type 0 where
  pub honest : (id : String) (a : Action) → get t.actions id ≡ some a → IsHonest id a
  pub running : All (HasApproved t.actions) t.running

pub some-eq : {A : Type 0} {a b : A} → some a ≡ some b → a ≡ b
some-eq h = cc

-- A write keeps the approvals, if its row is approved where the row before it was.
write-HasApproved :
    (a : Action) (event : AuditEvent) (actor : String) (t : Tables) (x : Action × String)
    → ((r : Action)
        → get t.actions a.id ≡ some r
        → has_approval r.status ≡ true
        → has_approval a.status ≡ true)
    → HasApproved t.actions x
    → HasApproved (write a event actor t).actions x
unfolding write
write-HasApproved a event actor t (b, _) keep (r, (h, k)) = elim (Bool-cases (str_eq a.id b.id)) [
  | inl e ↦
      let h' = subst (λ (i : String). get t.actions i ≡ some r) (sym ((eq_iff a.id b.id).0 e)) h in
      (a, (rw (get-set t.actions a.id b.id a, e) refl, keep r h' k))
  | inr e ↦ (r, (rw (get-set t.actions a.id b.id a, e) h, k))
]

write-running :
    (a : Action) (event : AuditEvent) (actor : String) (t : Tables) (xs : List (Action × String))
    → ((r : Action)
        → get t.actions a.id ≡ some r
        → has_approval r.status ≡ true
        → has_approval a.status ≡ true)
    → All (HasApproved t.actions) xs
    → All (HasApproved (write a event actor t).actions) xs
write-running a event actor t [] keep h = tt
write-running a event actor t (x ∷ xs) keep (p, h) =
    (write-HasApproved a event actor t x keep p, write-running a event actor t xs keep h)

write-IsHonest :
    (a : Action) (event : AuditEvent) (actor : String) (t : Tables)
    → is_some a.approved_by ≡ has_approval a.status
    → ((id : String) (b : Action) → get t.actions id ≡ some b → IsHonest id b)
    → (id : String) (b : Action) → get (write a event actor t).actions id ≡ some b
    → IsHonest id b
unfolding write
write-IsHonest a event actor t p h id b k = elim (Bool-cases (str_eq a.id id)) [
  | inl e ↦
      let k' = rw (get-set t.actions a.id id a, e) at k in
      subst (IsHonest id) (some-eq k') ((eq_iff a.id id).0 e, p)
  | inr e ↦ h id b (rw (get-set t.actions a.id id a, e) at k)
]

pub write-IsApproved :
    (a : Action) (event : AuditEvent) (actor : String) (t : Tables)
    → is_some a.approved_by ≡ has_approval a.status
    → ((r : Action)
        → get t.actions a.id ≡ some r
        → has_approval r.status ≡ true
        → has_approval a.status ≡ true)
    → IsApproved t
    → IsApproved (write a event actor t)
write-IsApproved a event actor t p keep h = record {
  honest = write-IsHonest a event actor t p h.honest;
  running = unfold write in write-running a event actor t t.running keep h.running;
}
