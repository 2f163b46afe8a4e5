-- ===== src/Permissions/Grants.antt =====
-- Which roles give an account the right to vote on, remove and add proposals.
use astro_api_gateway.Common.{
  ℕ, ◌≤◌, ◌≡◌, refl, ◌≢◌, ◌↔◌, ◌⊎◌, inl, inr, Bool, true, false, Option, none, some, List, [], ◌∷◌,
  ◌++◌, String, arith, if◌then◌else◌, includes, includes-append, eq_iff, str_append, Bool-cases,
  Option-cases,
}
use astro_api_gateway.Permissions.{
  ProposalType, RoleBalance, not_given, null_balance, needs, has_balance, RoleKind, everyone,
  member, group, Role, label_text, check_permissions, covers, collect, permissions_of,
  ProposalPermissions, get_account_permissions,
}

-- A role reaches an account.
pub data Covers (account : String) (balance : Option ℕ) (role : Role) : Type 0 where
  by_everyone : role.kind ≡ everyone → Covers account balance role
  by_list :
      (accounts : List String)
      → role.kind ≡ group
      → role.account_ids ≡ some accounts
      → includes accounts account ≡ true
      → Covers account balance role
  by_balance :
      (have need : ℕ)
      → role.kind ≡ member
      → balance ≡ some have
      → role.balance ≡ needs need
      → need ≤ have
      → Covers account balance role
  by_any_balance :
      (have : ℕ)
      → role.kind ≡ member
      → balance ≡ some have
      → role.balance ≡ null_balance
      → Covers account balance role

-- A list of permissions holds one that allows the action on proposals of the type.
pub data Permits (type : Option ProposalType) (action : String) (ps : List String) : Type 0 where
  all_actions : includes ps "*:*" ≡ true → Permits type action ps
  all_types : includes ps (str_append "*:" action) ≡ true → Permits type action ps
  one_type :
      includes ps (str_append (label_text type) (str_append ":" action)) ≡ true
      → Permits type action ps

-- Some role reaches the account and permits the action.
pub data Grants (account : String) (balance : Option ℕ) (type : Option ProposalType)
    (action : String) : List Role → Type 0 where
  here :
      {role : Role} {roles : List Role}
      → Covers account balance role
      → Permits type action role.permissions
      → Grants account balance type action (role ∷ roles)
  later :
      {role : Role} {roles : List Role}
      → Grants account balance type action roles
      → Grants account balance type action (role ∷ roles)

-- No group role lacks its list of accounts.
abbrev pub HasAccounts : Role → Type 0
HasAccounts role = role.kind ≡ group → role.account_ids ≢ none

by_member :
    (account : String) (balance : Option ℕ) (role : Role) (have : ℕ)
    → role.kind ≡ member
    → balance ≡ some have
    → (need : RoleBalance) → role.balance ≡ need
    → has_balance (some have) need ≡ true
    → Covers account balance role
by_member account balance role have e b not_given r h = cc
by_member account balance role have e b null_balance r h = by_any_balance have e b r
by_member account balance role have e b (needs need) r h = by_balance have need e b r (ground arith)

covers_sound :
    (account : String) (balance : Option ℕ) (role : Role) (kind : RoleKind)
    → role.kind ≡ kind
    → covers account balance role kind ≡ some true
    → Covers account balance role
covers_sound account balance role everyone e h = by_everyone e
covers_sound account balance role member e h = elim (Option-cases balance) [
  | inl no_balance ↦ absurd (ground arith)
  | inr (have, b) ↦ by_member account balance role have e b role.balance refl (ground arith)
]
covers_sound account balance role group e h = elim (Option-cases role.account_ids) [
  | inl no_list ↦ absurd (ground arith)
  | inr (accounts, l) ↦ by_list accounts e l (ground arith)
]

covers_complete :
    (account : String) (balance : Option ℕ) (role : Role)
    → Covers account balance role
    → covers account balance role role.kind ≡ some true
covers_complete account balance role (by_everyone e) = rw e
covers_complete account balance role (by_list accounts e l i) = rw (e, l, i)
covers_complete account balance role (by_balance have need e b r le) = rw (e, b, r) (ground arith)
covers_complete account balance role (by_any_balance have e b r) = rw (e, b, r) refl

check_append :
    (type : Option ProposalType) (action : String) (ps qs : List String)
    → check_permissions type action (ps ++ qs)
      ≡ (if check_permissions type action ps then true else check_permissions type action qs)
unfolding check_permissions
check_append type action ps qs = ground (
  arith,
  includes-append ps qs "*:*",
  includes-append ps qs (str_append "*:" action),
  includes-append ps qs (str_append (label_text type) (str_append ":" action)),
)

check_sound :
    (type : Option ProposalType) (action : String) (ps : List String)
    → check_permissions type action ps ≡ true
    → Permits type action ps
unfolding check_permissions
check_sound type action ps h = elim (Bool-cases (includes ps "*:*")) [
  | inl all ↦ all_actions all
  | inr not_all ↦ elim (Bool-cases (includes ps (str_append "*:" action))) [
    | inl any_type ↦ all_types any_type
    | inr not_types ↦ one_type (ground arith)
  ]
]

check_complete :
    (type : Option ProposalType) (action : String) (ps : List String)
    → Permits type action ps
    → check_permissions type action ps ≡ true
unfolding check_permissions
check_complete type action ps (all_actions h) = ground arith
check_complete type action ps (all_types h) = ground arith
check_complete type action ps (one_type h) = ground arith

module _ (account : String) (balance : Option ℕ) (type : Option ProposalType)
    (action : String) where
  collect_sound :
      (acc : List String) (roles : List Role) (ps : List String)
      → collect account balance acc roles ≡ some ps
      → check_permissions type action ps ≡ true
      → (check_permissions type action acc ≡ true) ⊎ Grants account balance type action roles
  unfolding collect
  collect_sound acc [] ps e h = inl (ground arith)
  collect_sound acc (role ∷ roles) ps e h =
      elim (Option-cases (covers account balance role role.kind)) [
        | inl throws ↦ absurd (ground arith)
        | inr (true, applies) ↦
            elim (collect_sound (acc ++ role.permissions) roles ps (ground arith) h) [
              | inl before ↦ elim (Bool-cases (check_permissions type action acc)) [
                | inl old ↦ inl old
                | inr new ↦ inr (
                    here (covers_sound account balance role role.kind refl applies) (
                      check_sound type action role.permissions
                        (ground (arith, check_append type action acc role.permissions))))
              ]
              | inr found ↦ inr (later found)
            ]
        | inr (false, skipped) ↦ elim (collect_sound acc roles ps (ground arith) h) [
          | inl before ↦ inl before
          | inr found ↦ inr (later found)
        ]
      ]

  collect_keeps :
      (acc : List String) (roles : List Role) (ps : List String)
      → collect account balance acc roles ≡ some ps
      → check_permissions type action acc ≡ true
      → check_permissions type action ps ≡ true
  unfolding collect
  collect_keeps acc [] ps e h = ground arith
  collect_keeps acc (role ∷ roles) ps e h = ground (
    arith,
    collect_keeps acc roles ps,
    collect_keeps (acc ++ role.permissions) roles ps,
    check_append type action acc role.permissions,
  )

  collect_complete :
      (acc : List String) (roles : List Role) (ps : List String)
      → collect account balance acc roles ≡ some ps
      → Grants account balance type action roles
      → check_permissions type action ps ≡ true
  unfolding collect
  collect_complete acc [] ps e g = elim g [ ]
  collect_complete acc (role ∷ roles) ps e (here c p) = ground (
    arith,
    covers_complete account balance role c,
    check_complete type action role.permissions p,
    check_append type action acc role.permissions,
    collect_keeps (acc ++ role.permissions) roles ps,
  )
  collect_complete acc (role ∷ roles) ps e (later g) =
      ground (
        arith,
        collect_complete acc roles ps,
        collect_complete (acc ++ role.permissions) roles ps,
        g,
      )

-- A right is given exactly when some role grants it.
abbrev pub GivesExactly : Bool → Type 0 → Type 0
GivesExactly right grant = (right ≡ true) ↔ grant

collect_exact :
    (account : String) (balance : Option ℕ) (type : Option ProposalType) (action : String)
    (roles : List Role) (ps : List String)
    → collect account balance [] roles ≡ some ps
    → GivesExactly (check_permissions type action ps) (Grants account balance type action roles)
unfolding check_permissions
collect_exact account balance type action roles ps e = (
  λ h. elim (collect_sound account balance type action [] roles ps e h) [
    | inl empty ↦ cc
    | inr g ↦ g
  ],
  collect_complete account balance type action [] roles ps e,
)

module _ (roles : List Role) (type : Option ProposalType) (account : String)
    (balance : Option ℕ) where
  collected :
      (p : ProposalPermissions)
      → account ≢ ""
      → get_account_permissions roles type (some account) balance ≡ some p
      → (ps : List String) × (collect account balance [] roles ≡ some ps)
        × (p.can_approve ≡ check_permissions type "VoteApprove" ps)
        × (p.can_reject ≡ check_permissions type "VoteReject" ps)
        × (p.can_delete ≡ check_permissions type "VoteRemove" ps)
        × (p.can_add ≡ check_permissions type "AddProposal" ps)
  unfolding get_account_permissions permissions_of
  collected p ne e = elim (Option-cases (collect account balance [] roles)) [
    | inl throws ↦ absurd (ground (arith, eq_iff account ""))
    | inr (ps, c) ↦ (
      ps,
      c,
      ground (arith, eq_iff account ""),
      ground (arith, eq_iff account ""),
      ground (arith, eq_iff account ""),
      ground (arith, eq_iff account ""),
    )
  ]

  -- For an account id that is not empty, where the permissions are computed with no exception: each
  -- of the rights to approve, reject, remove and add is given exactly when some role that reaches the
  -- account (it is for everyone, it lists the account, or the account's balance is given and at
  -- least the role's, where `null` counts as zero) holds `*:*`, the action for all types, or the action for the label of the type.
  pub get_account_permissions-Grants :
      (p : ProposalPermissions)
      → account ≢ ""
      → get_account_permissions roles type (some account) balance ≡ some p
      → GivesExactly p.can_approve (Grants account balance type "VoteApprove" roles)
        × GivesExactly p.can_reject (Grants account balance type "VoteReject" roles)
        × GivesExactly p.can_delete (Grants account balance type "VoteRemove" roles)
        × GivesExactly p.can_add (Grants account balance type "AddProposal" roles)
  get_account_permissions-Grants p ne e =
      let (ps, c, approve, reject, remove, add) = collected p ne e in
      let exact = λ (action : String). collect_exact account balance type action roles ps c in
      rw (approve, reject, remove, add)
        (exact "VoteApprove", exact "VoteReject", exact "VoteRemove", exact "AddProposal")
