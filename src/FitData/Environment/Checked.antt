-- ===== src/FitData/Environment/Checked.antt =====
-- The variables that exist once the environment was fetched.
use fit_fred.Common.{
  ◌≡◌, ◌↔◌, refl, sym, ap, subst, ◌∙◌, Fallible, ok, err, ok-injective, Fallible-cases, Bytes,
  codes, [], ◌∷◌, List, true, false, is_empty, All, Bool-cases, ◌⊎◌, inl, inr,
}
use fit_fred.Platform.{Platform}
use fit_fred.Board.Environment.{
  Setting, MissingSetting, find_setting, setting_exists, emplace_setting, update_variable,
}
use fit_fred.Board.Environment.Exists.{
  emplace_setting-exists, emplace_setting-new, emplace_setting-only, update_variable-exists,
}
use fit_fred.Database.Rows.{EnvironmentRow}
use fit_fred.FitData.Environment.{
  all_exist, check_environment, add_variables, update_variables, parse_env_variables,
}

-- A name that a row has.
abbrev pub IsNamed : List EnvironmentRow → Bytes → Type 0
IsNamed [] name = ⊥
IsNamed (row ∷ rows) name = (row.name ≡ name) ⊎ IsNamed rows name

all_exist-true :
    {Double : Type 0} (names : List Bytes) (ss : List (Setting Double))
    → All (λ name. setting_exists name ss ≡ true) names
    → all_exist names ss ≡ true
unfolding all_exist
all_exist-true [] ss h = refl
all_exist-true (name ∷ names) ss (h, hs) = rw h (all_exist-true names ss hs)

update_variables-exists :
    (platform : Platform) (rows : List EnvironmentRow) (ss next : List (Setting platform.Double))
    (name : Bytes)
    → update_variables platform rows ss ≡ ok next
    → setting_exists name next ≡ setting_exists name ss
unfolding update_variables
update_variables-exists platform [] ss next name h =
    ap (λ r. setting_exists name r) (sym (ok-injective h))
update_variables-exists platform (row ∷ rows) ss next name h =
    elim (Fallible-cases (update_variable platform row.name ss)) [
      | inl ((middle, value), e) ↦
          let rest : update_variables platform rows middle ≡ ok next =
            rw (update_variables, e) at h in
          update_variables-exists platform rows middle next name rest
          ∙ update_variable-exists platform row.name name ss middle value e
      | inr (f, e) ↦
          let broken : ◌≡◌ {A = Fallible MissingSetting (List (Setting platform.Double))} (err f)
              (ok next) =
            rw (update_variables, e) at h in
          cc
    ]

add_variables-exists :
    (platform : Platform) (unset : platform.Double) (rows : List EnvironmentRow)
    (ss next : List (Setting platform.Double)) (name : Bytes)
    → add_variables platform unset rows ss ≡ ok next
    → (setting_exists name ss ≡ true) ⊎ IsNamed rows name
    → setting_exists name next ≡ true
unfolding add_variables
add_variables-exists platform unset [] ss next name h (inl known) =
    subst (λ r. setting_exists name r ≡ true) (ok-injective h) known
add_variables-exists platform unset [] ss next name h (inr named) = absurd named
add_variables-exists platform unset (row ∷ rows) ss next name h known =
    let setting : Setting platform.Double = record {
      name = row.name;
      value = unset;
      equation = row.equation;
    } in
    let added = emplace_setting setting ss in
    let now : (setting_exists name added ≡ true) ⊎ IsNamed rows name = elim known [
      | inl here ↦ inl (emplace_setting-exists name setting ss here)
      | inr (inl same) ↦
          inl (subst (λ n. setting_exists n added ≡ true) same (emplace_setting-new setting ss))
      | inr (inr later) ↦ inr later
    ] in
    elim (Bool-cases (is_empty row.equation.variables)) [
      | inr e ↦
          add_variables-exists platform unset rows added next name (rw (add_variables, e) at h) now
      | inl e ↦ elim (Fallible-cases (update_variable platform row.name added)) [
        | inl ((middle, value), q) ↦
            let same = update_variable-exists platform row.name name added middle value q in
            let then_known : (setting_exists name middle ≡ true) ⊎ IsNamed rows name = elim now [
              | inl here ↦ inl (same ∙ here)
              | inr later ↦ inr later
            ] in
            add_variables-exists platform unset rows middle next name
              (rw (add_variables, e, q) at h) then_known
        | inr (f, q) ↦
            let broken : ◌≡◌ {A = Fallible MissingSetting (List (Setting platform.Double))} (err f)
                (ok next) =
              rw (add_variables, e, q) at h in
            cc
      ]
    ]

add_variables-only :
    (platform : Platform) (unset : platform.Double) (rows : List EnvironmentRow)
    (ss next : List (Setting platform.Double)) (name : Bytes)
    → add_variables platform unset rows ss ≡ ok next
    → setting_exists name next ≡ true
    → (setting_exists name ss ≡ true) ⊎ IsNamed rows name
unfolding add_variables
add_variables-only platform unset [] ss next name h known =
    inl (subst (λ r. setting_exists name r ≡ true) (sym (ok-injective h)) known)
add_variables-only platform unset (row ∷ rows) ss next name h known =
    let setting : Setting platform.Double = record {
      name = row.name;
      value = unset;
      equation = row.equation;
    } in
    let added = emplace_setting setting ss in
    elim (Bool-cases (is_empty row.equation.variables)) [
      | inr e ↦ behind_row row rows ss setting name refl (
          add_variables-only platform unset rows added next name (rw (add_variables, e) at h) known)
      | inl e ↦ elim (Fallible-cases (update_variable platform row.name added)) [
        | inl ((middle, value), q) ↦
            let same = update_variable-exists platform row.name name added middle value q in
            behind_row row rows ss setting name refl
              (elim (add_variables-only platform unset rows middle next name
                (rw (add_variables, e, q) at h) known) [
                  | inl here ↦ inl (sym same ∙ here)
                  | inr later ↦ inr later
                ])
        | inr (f, q) ↦
            let broken : ◌≡◌ {A = Fallible MissingSetting (List (Setting platform.Double))} (err f)
                (ok next) =
              rw (add_variables, e, q) at h in
            cc
      ]
    ]
  where
    behind_row :
        {Double : Type 0} (row : EnvironmentRow) (rows : List EnvironmentRow)
        (ss : List (Setting Double)) (setting : Setting Double) (name : Bytes)
        → setting.name ≡ row.name
        → (setting_exists name (emplace_setting setting ss) ≡ true) ⊎ IsNamed rows name
        → (setting_exists name ss ≡ true) ⊎ IsNamed (row ∷ rows) name
    behind_row row rows ss setting name q (inr later) = inr (inr later)
    behind_row row rows ss setting name q (inl here) =
        elim (emplace_setting-only name setting ss here) [
          | inl known ↦ inl known
          | inr same ↦ inr (inl (sym q ∙ same))
        ]

All-map :
    {P Q : Bytes → Type 0} (names : List Bytes)
    → ((name : Bytes) → P name → Q name)
    → All P names
    → All Q names
All-map [] f h = tt
All-map (name ∷ names) f (h, hs) = (f name h, All-map names f hs)

all_exist-All :
    {Double : Type 0} (names : List Bytes) (ss : List (Setting Double))
    → all_exist names ss ≡ true
    → All (λ name. setting_exists name ss ≡ true) names
unfolding all_exist
all_exist-All [] ss h = tt
all_exist-All (name ∷ names) ss h = elim (Bool-cases (setting_exists name ss)) [
  | inl known ↦ (known, all_exist-All names ss (rw (all_exist, known) at h))
  | inr unknown ↦ let broken : false ≡ true = rw (all_exist, unknown) at h in cc
]

-- The variables that must be there.
abbrev pub must_exist : List Bytes
must_exist =
    codes "LHC_CLOCK"
    ∷ codes "INTERNAL_CLOCK"
    ∷ codes "SYSTEM_CLOCK"
    ∷ codes "TDC"
    ∷ codes "PMA0_BOARD_ID"
    ∷ codes "PMC0_BOARD_ID"
    ∷ codes "TCM_BOARD_ID"
    ∷ codes "SYSTEM_ID"
    ∷ codes "BCID_OFFSET_DEFAULT"
    ∷ codes "TRIGGER_1_SIGNATURE"
    ∷ codes "TRIGGER_2_SIGNATURE"
    ∷ codes "TRIGGER_3_SIGNATURE"
    ∷ codes "TRIGGER_4_SIGNATURE"
    ∷ codes "TRIGGER_5_SIGNATURE"
    ∷ []

parse_env_variables-exists :
    (platform : Platform) (unset : platform.Double) (rows : List EnvironmentRow)
    (settings : List (Setting platform.Double)) (name : Bytes)
    → parse_env_variables platform unset rows ≡ ok settings
    → (setting_exists name settings ≡ true) ↔ IsNamed rows name
unfolding parse_env_variables setting_exists find_setting
parse_env_variables-exists platform unset rows settings name h =
    elim (Fallible-cases (add_variables platform unset rows [])) [
      | inl (middle, e) ↦
          let updated : update_variables platform rows middle ≡ ok settings =
            rw (parse_env_variables, e) at h in
          let same = update_variables-exists platform rows middle settings name updated in
          (
            λ known.
                elim (add_variables-only platform unset rows [] middle name e (sym same ∙ known)) [
                  | inl none ↦ cc
                  | inr named ↦ named
                ],
            λ named. same ∙ add_variables-exists platform unset rows [] middle name e (inr named),
          )
      | inr (f, e) ↦
          let broken : ◌≡◌ {A = Fallible MissingSetting (List (Setting platform.Double))} (err f)
              (ok settings) =
            rw (parse_env_variables, e) at h in
          cc
    ]

-- If reading the variables of a table throws nothing: the check of the environment succeeds on the
-- variables that were read exactly if the table has a row for each of the three clocks, the TDC, the
-- two first PM boards and the TCM board, the system, the default BC id offset and the signatures of
-- the five triggers.
pub check_environment-parsed :
    (platform : Platform) (unset : platform.Double) (rows : List EnvironmentRow)
    (settings : List (Setting platform.Double))
    → parse_env_variables platform unset rows ≡ ok settings
    → (check_environment settings ≡ true) ↔ All (IsNamed rows) must_exist
unfolding check_environment
check_environment-parsed platform unset rows settings h =
    let each : (name : Bytes) → (setting_exists name settings ≡ true) ↔ IsNamed rows name =
      λ name. parse_env_variables-exists platform unset rows settings name h in
    (
      λ checked.
          All-map must_exist (λ name. (each name).0) (all_exist-All must_exist settings checked),
      λ named.
          all_exist-true must_exist settings (All-map must_exist (λ name. (each name).1) named),
    )
