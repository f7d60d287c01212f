-- ===== src/Escalations/Candidates/Chosen.antt =====
-- What the choice of a member has to meet, said of the tables alone.
use customer_service_chat_sy.Base.{
  ℕ, zero, suc, ◌<◌, ◌≡◌, refl, ap, ◌∙◌, ◌⊎◌, inl, inr, Bool, true, false, not, ◌&&◌, ◌||◌,
  Bool-cases, List, [], ◌∷◌, Option, none, some, codes, eqb, ◌==◌, text_eq, ℕ_eq, ==→≡, ==_refl,
  get_elem?, length, count, retain, any, all, contains, arith,
}
use customer_service_chat_sy.Tenancy.Roster.{Membership}
use customer_service_chat_sy.Escalations.Presence.{Availability, is_available_row}
use customer_service_chat_sy.Escalations.Rows.{AgentSkill, Conversation, Db, is_assignee}
use customer_service_chat_sy.Escalations.Candidates.{
  Candidate, is_eligible, is_matching, can_take_over, candidate_of, precedes, select_candidate,
}
use customer_service_chat_sy.Escalations.Candidates.Ranked.{
  IsBest, nobody, best, select_candidate-IsBest,
}

-- A row of a table.
abbrev pub Row : {A : Type 0} → List A → A → Type 0
Row rows a = (i : ℕ) × (get_elem? rows i ≡ some a)

pub record MayTakeOver (db : Db) (tenant_id : ℕ) (present_ids : List ℕ) (m : Membership)
    : Type 0 where
  pub in_tenant : m.tenant_id ≡ tenant_id
  pub active : m.status ≡ codes "active"
  pub kept : m.deleted ≡ false
  pub role :
      (m.role ≡ codes "owner")
      ⊎ ((m.role ≡ codes "admin") ⊎ ((m.role ≡ codes "manager") ⊎ (m.role ≡ codes "agent")))
  pub available :
      (a : Availability) × (Row db.availability a
        × ((a.tenant_id ≡ tenant_id) × ((a.membership_id ≡ m.id) × (a.state ≡ codes "available"))))
  pub present : Row present_ids m.id

-- How many of the required skills the member has, and how many conversations that are not over.
abbrev pub held_skills : Db → (tenant_id : ℕ) → (required_skill_ids : List ℕ) → Membership → ℕ
held_skills db tenant_id required_skill_ids m =
    count
      (λ (s : AgentSkill).
        any (λ id. eqb id s.skill_id) required_skill_ids
        && (eqb s.membership_id m.id && eqb s.tenant_id tenant_id))
      db.agent_skills

abbrev pub current_conversations : Db → (tenant_id : ℕ) → Membership → ℕ
current_conversations db tenant_id m =
    count
      (λ (v : Conversation).
        not v.deleted
        && (eqb v.tenant_id tenant_id
            && (is_assignee v.assigned_membership_id m.id
                && (v.status == codes "pending" || v.status == codes "open"))))
      db.conversations

-- The first member is preferred to the second.
pub data Outranks (db : Db) (tenant_id : ℕ) (ids : List ℕ) (m m' : Membership) : Type 0 where
  more_skills :
      held_skills db tenant_id ids m' < held_skills db tenant_id ids m
      → Outranks db tenant_id ids m m'
  smaller_load :
      held_skills db tenant_id ids m ≡ held_skills db tenant_id ids m'
      → current_conversations db tenant_id m < current_conversations db tenant_id m'
      → Outranks db tenant_id ids m m'
  smaller_id :
      held_skills db tenant_id ids m ≡ held_skills db tenant_id ids m'
      → current_conversations db tenant_id m ≡ current_conversations db tenant_id m'
      → m.id < m'.id
      → Outranks db tenant_id ids m m'

row_of_any :
    {A : Type 0} (p : A → Bool) (rows : List A)
    → any p rows ≡ true
    → (a : A) × (Row rows a × (p a ≡ true))
row_of_any p [] h = ground arith
row_of_any p (x ∷ rows) h = elim (Bool-cases (p x)) [
  | inl fits ↦ (x, ((zero, refl), fits))
  | inr other ↦
      let (a, ((i, e), fits)) = row_of_any p rows (ground arith) in (a, ((suc i, e), fits))
]

any_of_row :
    {A : Type 0} (p : A → Bool) (rows : List A) (a : A)
    → Row rows a
    → p a ≡ true
    → any p rows ≡ true
any_of_row p [] a (i, e) h = ground arith
any_of_row p (x ∷ rows) a (zero, e) h = ground arith
any_of_row p (x ∷ rows) a (suc i, e) h = ground (arith, any_of_row p rows a (i, e) h)

all_of_row :
    {A : Type 0} (p : A → Bool) (rows : List A) (a : A)
    → Row rows a
    → all p rows ≡ true
    → p a ≡ true
all_of_row p [] a (i, e) h = ground arith
all_of_row p (x ∷ rows) a (zero, e) h = ground arith
all_of_row p (x ∷ rows) a (suc i, e) h = all_of_row p rows a (i, e) (ground arith)

count-same :
    {A : Type 0} (p q : A → Bool) (rows : List A)
    → ((a : A) → p a ≡ q a)
    → count p rows ≡ count q rows
count-same p q [] h = refl
count-same p q (x ∷ rows) h = ground (arith, h x, count-same p q rows h)

length-retain : {A : Type 0} (p : A → Bool) (rows : List A) → length (retain p rows) ≡ count p rows
length-retain p [] = refl
length-retain p (x ∷ rows) = elim (Bool-cases (p x)) [
  | inl fits ↦ rw fits (ground (arith, length-retain p rows))
  | inr other ↦ rw other (ground (arith, length-retain p rows))
]

module _ (db : Db) (tenant_id : ℕ) (present_ids : List ℕ) (m : Membership) where
  role_of :
      (m.role == codes "owner"
          || (m.role == codes "admin" || (m.role == codes "manager" || m.role == codes "agent")))
        ≡ true
      → (m.role ≡ codes "owner")
        ⊎ ((m.role ≡ codes "admin") ⊎ ((m.role ≡ codes "manager") ⊎ (m.role ≡ codes "agent")))
  role_of h = elim (Bool-cases (m.role == codes "owner")) [
    | inl owner ↦ inl (==→≡ m.role (codes "owner") owner)
    | inr o ↦ elim (Bool-cases (m.role == codes "admin")) [
      | inl admin ↦ inr (inl (==→≡ m.role (codes "admin") admin))
      | inr a ↦ elim (Bool-cases (m.role == codes "manager")) [
        | inl manager ↦ inr (inr (inl (==→≡ m.role (codes "manager") manager)))
        | inr g ↦ inr (inr (inr (==→≡ m.role (codes "agent") (ground arith))))
      ]
    ]
  ]

  can_take :
      (m.role ≡ codes "owner")
        ⊎ ((m.role ≡ codes "admin") ⊎ ((m.role ≡ codes "manager") ⊎ (m.role ≡ codes "agent")))
      → can_take_over m.role ≡ true
  can_take (inl e) = rw e refl
  can_take (inr (inl e)) = rw e refl
  can_take (inr (inr (inl e))) = rw e refl
  can_take (inr (inr (inr e))) = rw e refl

  is_eligible-MayTakeOver :
      is_eligible db tenant_id present_ids m ≡ true → MayTakeOver db tenant_id present_ids m
  unfolding is_eligible contains
  is_eligible-MayTakeOver h =
      let (a, (row, fits)) =
        row_of_any (is_available_row tenant_id m.id) db.availability (ground arith) in
      let (id, (at, same)) = row_of_any (λ x. x == m.id) present_ids (ground arith) in
      let id_same : id ≡ m.id = ground arith in
      record {
        in_tenant = ground arith;
        active = ==→≡ m.status (codes "active") (ground arith);
        kept = ground arith;
        role = role_of (ground arith);
        available = (
          a,
          (row, (ground arith, (ground arith, ==→≡ a.state (codes "available") (ground arith)))),
        );
        present = rw id_same at at;
      }

  MayTakeOver-eligible :
      MayTakeOver db tenant_id present_ids m → is_eligible db tenant_id present_ids m ≡ true
  unfolding is_eligible contains
  MayTakeOver-eligible h =
      let (a, (row, (t, (i, s)))) = h.available in
      let is_available : is_available_row tenant_id m.id a ≡ true =
        rw t (rw i (rw s (ground arith))) in
      let listed =
        any_of_row (is_available_row tenant_id m.id) db.availability a row is_available in
      let found = any_of_row (λ x. x == m.id) present_ids m.id h.present (==_refl m.id) in
      let active : (m.status == codes "active") ≡ true = rw h.active refl in
      ground (arith, h.in_tenant, h.kept, active, can_take h.role, listed, found)

module _ (db : Db) (tenant_id : ℕ) (ids : List ℕ) (m : Membership) where
  matches-held : (candidate_of db tenant_id ids m).match_count ≡ held_skills db tenant_id ids m
  unfolding candidate_of contains
  matches-held =
      length-retain (is_matching tenant_id m.id ids) db.agent_skills
      ∙ count-same _ _ db.agent_skills (λ s. ground arith)

  load-current : (candidate_of db tenant_id ids m).load_count ≡ current_conversations db tenant_id m
  unfolding candidate_of
  load-current = count-same _ _ db.conversations (λ v. ground arith)

module _ (db : Db) (tenant_id : ℕ) (ids : List ℕ) (m m' : Membership) where
  Outranks-precedes :
      Outranks db tenant_id ids m m'
      → precedes (candidate_of db tenant_id ids m) (candidate_of db tenant_id ids m') ≡ true
  unfolding precedes candidate_of
  Outranks-precedes o =
      let h = matches-held db tenant_id ids m in
      let h' = matches-held db tenant_id ids m' in
      let l = load-current db tenant_id ids m in
      let l' = load-current db tenant_id ids m' in
      elim o [
        | more_skills a ↦ ground (arith, h, h', a)
        | smaller_load a b ↦ ground (arith, h, h', l, l', a, b)
        | smaller_id a b c ↦ ground (arith, h, h', l, l', a, b, c)
      ]

module _ (db : Db) (tenant_id : ℕ) (ids present_ids : List ℕ) where
  -- What a choice is.
  pub data IsChoice : Option Candidate → Type 0 where
    no_choice :
        ((m : Membership) → Row db.memberships m → ¬ MayTakeOver db tenant_id present_ids m)
        → IsChoice none
    choice :
        (m : Membership) {c : Candidate}
        → Row db.memberships m
        → MayTakeOver db tenant_id present_ids m
        → c.membership_id ≡ m.id
        → c.match_count ≡ held_skills db tenant_id ids m
        → c.load_count ≡ current_conversations db tenant_id m
        → ((m' : Membership)
            → Row db.memberships m'
            → MayTakeOver db tenant_id present_ids m'
            → ¬ Outranks db tenant_id ids m' m)
        → IsChoice (some c)

  not_outranked :
      (m m' : Membership) (c : Candidate)
      → c ≡ candidate_of db tenant_id ids m
      → (is_eligible db tenant_id present_ids m' && precedes (candidate_of db tenant_id ids m') c)
        ≡ false
      → MayTakeOver db tenant_id present_ids m'
      → ¬ Outranks db tenant_id ids m' m
  not_outranked m m' c e u may o =
      let fits = MayTakeOver-eligible db tenant_id present_ids m' may in
      let before = Outranks-precedes db tenant_id ids m' m o in
      let u' = rw e at u in absurd (ground (arith, fits, before, u'))

  best-IsChoice :
      {o : Option Candidate}
      → IsBest
          (is_eligible db tenant_id present_ids)
          (candidate_of db tenant_id ids)
          db.memberships
          o
      → IsChoice o
  unfolding candidate_of
  best-IsChoice (nobody u) = no_choice (λ m row may.
      let fits = MayTakeOver-eligible db tenant_id present_ids m may in
      let found = any_of_row (is_eligible db tenant_id present_ids) db.memberships m row fits in
      absurd (ground arith))
  best-IsChoice (best i m {c} at fits e u) =
      choice m (i, at) (is_eligible-MayTakeOver db tenant_id present_ids m fits)
        (ap (λ (c : Candidate). c.membership_id) e)
        (ap (λ (c : Candidate). c.match_count) e ∙ matches-held db tenant_id ids m)
        (ap (λ (c : Candidate). c.load_count) e ∙ load-current db tenant_id ids m)
        (λ m' row may.
          let free = all_of_row _ db.memberships m' row u in
          not_outranked m m' c e (ground arith) may)

  -- A member is chosen unless nobody may take over; the chosen member may take over, and none who may
  -- has more of the required skills, or as many and fewer conversations that are not over, or as many
  -- of both and a smaller id. The candidate holds the member's id and these two numbers.
  pub select_candidate-IsChoice : IsChoice (select_candidate db tenant_id ids present_ids)
  select_candidate-IsChoice = best-IsChoice (select_candidate-IsBest db tenant_id ids present_ids)
