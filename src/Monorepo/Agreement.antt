-- ===== src/Monorepo/Agreement.antt =====
-- That the grouping by tool compares each two declarations of one tool, and no others.
use devrepro_doctor.Prelude.{
  ◌≡◌, refl, sym, ap, ◌∙◌, String, Bool, true, false, not, ◌&&◌, ◌||◌, List, [], ◌∷◌, ◌++◌, all,
  str_eq, str_eq_iff, if◌then◌else◌, Bool-cases, inl, inr, arith,
}
use devrepro_doctor.Monorepo.{
  NestedConflict, Declared, Manifest, Groups, declared_by, add_entry, group_by_tool, pair_conflicts,
  against_later, entries_conflicts, groups_conflicts, detect_conflicts,
}

abbrev pub has_none : List NestedConflict → Bool
has_none [] = true
has_none (c ∷ cs) = false

-- Two declarations do not conflict.
abbrev pub agree : Declared → Declared → Bool
agree a b = has_none (pair_conflicts a b)

-- Two declarations are of different tools, or do not conflict.
abbrev pub agree_same : Declared → Declared → Bool
agree_same a b = not (str_eq a.tool b.tool) || agree a b

-- A test between each item and each later one.
abbrev pub all_pairs : (Declared → Declared → Bool) → List Declared → Bool
all_pairs test [] = true
all_pairs test (d ∷ ds) = all (test d) ds && all_pairs test ds

has_none-append : (xs ys : List NestedConflict) → has_none (xs ++ ys) ≡ (has_none xs && has_none ys)
has_none-append [] ys = refl
has_none-append (x ∷ xs) ys = refl

has_none-against_later :
    (a : Declared) (later : List Declared) → has_none (against_later a later) ≡ all (agree a) later
has_none-against_later a [] = refl
has_none-against_later a (b ∷ later) =
    has_none-append (pair_conflicts a b) (against_later a later)
    ∙ ap (λ x. agree a b && x) (has_none-against_later a later)

has_none-entries_conflicts :
    (ds : List Declared) → has_none (entries_conflicts ds) ≡ all_pairs agree ds
has_none-entries_conflicts [] = refl
has_none-entries_conflicts (d ∷ ds) =
    has_none-append (against_later d ds) (entries_conflicts ds)
    ∙ ap (λ x. x && has_none (entries_conflicts ds)) (has_none-against_later d ds)
    ∙ ap (λ x. all (agree d) ds && x) (has_none-entries_conflicts ds)

-- The entries of each group agree.
abbrev all_groups : Groups → Bool
all_groups [] = true
all_groups ((tool, entries) ∷ groups) = all_pairs agree entries && all_groups groups

has_none-groups_conflicts :
    (groups : Groups) → has_none (groups_conflicts groups) ≡ all_groups groups
has_none-groups_conflicts [] = refl
has_none-groups_conflicts ((tool, entries) ∷ groups) =
    has_none-append (entries_conflicts entries) (groups_conflicts groups)
    ∙ ap (λ x. x && has_none (groups_conflicts groups)) (has_none-entries_conflicts entries)
    ∙ ap (λ x. all_pairs agree entries && x) (has_none-groups_conflicts groups)

-- The entries that a tool has so far.
abbrev entries_of : String → Groups → List Declared
entries_of tool [] = []
entries_of tool ((t, entries) ∷ groups) = if str_eq t tool then entries else entries_of tool groups

all-snoc :
    (test : Declared → Bool) (ds : List Declared) (d : Declared)
    → all test (ds ++ d ∷ []) ≡ (all test ds && test d)
all-snoc test [] d = ground arith
all-snoc test (x ∷ ds) d = ground (arith, all-snoc test ds d)

all_pairs-snoc :
    (test : Declared → Declared → Bool) (ds : List Declared) (d : Declared)
    → all_pairs test (ds ++ d ∷ []) ≡ (all_pairs test ds && all (λ x. test x d) ds)
all_pairs-snoc test [] d = refl
all_pairs-snoc test (x ∷ ds) d = ground (arith, all-snoc (test x) ds d, all_pairs-snoc test ds d)

all_groups-add_entry :
    (d : Declared) (groups : Groups)
    → all_groups (add_entry d groups)
      ≡ (all_groups groups && all (λ x. agree x d) (entries_of d.tool groups))
unfolding add_entry
all_groups-add_entry d [] = refl
all_groups-add_entry d ((tool, entries) ∷ groups) = elim (Bool-cases (str_eq tool d.tool)) [
  | inl e ↦ rw e (ground (arith, all_pairs-snoc agree entries d))
  | inr e ↦ rw e (ground (arith, all_groups-add_entry d groups))
]

distinct_tools :
    (t u tool : String) → str_eq t u ≡ false → str_eq t tool ≡ true → str_eq u tool ≡ false
distinct_tools t u tool apart here = elim (Bool-cases (str_eq u tool)) [
  | inl there ↦ absurd (
      cc (
        apart,
        (str_eq_iff t u).1 ((str_eq_iff t tool).0 here ∙ sym ((str_eq_iff u tool).0 there)),
      ))
  | inr e ↦ e
]

entries_of-add_entry :
    (d : Declared) (tool : String) (groups : Groups)
    → entries_of tool (add_entry d groups)
      ≡ (if str_eq d.tool tool then entries_of tool groups ++ d ∷ [] else entries_of tool groups)
unfolding add_entry
entries_of-add_entry d tool [] = refl
entries_of-add_entry d tool ((t, entries) ∷ groups) = elim (Bool-cases (str_eq t d.tool)) [
  | inl e ↦
      let same : str_eq d.tool tool ≡ str_eq t tool =
        ap (λ n. str_eq n tool) (sym ((str_eq_iff t d.tool).0 e)) in
      elim (Bool-cases (str_eq t tool)) [
        | inl here ↦ rw (e, same, here) refl
        | inr other ↦ rw (e, same, other) refl
      ]
  | inr e ↦ elim (Bool-cases (str_eq t tool)) [
    | inl here ↦
        let apart : str_eq d.tool tool ≡ false = distinct_tools t d.tool tool e here in
        rw (e, here, apart) refl
    | inr other ↦ rw (e, other) (entries_of-add_entry d tool groups)
  ]
]

swap :
    (b c y z : Bool) {a x : Bool} → a ≡ (b && c) → x ≡ (y && z) → (a && x) ≡ ((b && y) && (c && z))
swap b c y z h k = ground (arith, h, k)

and_true : (a : Bool) {b : Bool} → b ≡ true → (a && b) ≡ a
and_true true h = h
and_true false h = refl

swaps :
    (b c p q y : Bool) {a x : Bool}
    → a ≡ (b && c)
    → x ≡ (y && q)
    → (a && (p && x)) ≡ (b && ((y && p) && (c && q)))
swaps b c p q y h k = ground (arith, h, k)

-- A declaration agrees with all that its tool has so far.
abbrev fits : Groups → Declared → Bool
fits groups x = all (λ y. agree y x) (entries_of x.tool groups)

fits-add_entry :
    (d x : Declared) (groups : Groups)
    → fits (add_entry d groups) x ≡ (agree_same d x && fits groups x)
fits-add_entry d x groups =
    ap (all (λ y. agree y x)) (entries_of-add_entry d x.tool groups)
    ∙ (elim (Bool-cases (str_eq d.tool x.tool)) [
      | inl e ↦ rw e (ground (arith, all-snoc (λ y. agree y x) (entries_of x.tool groups) d))
      | inr e ↦ rw e refl
    ])

all-fits-add_entry :
    (d : Declared) (groups : Groups) (ds : List Declared)
    → all (fits (add_entry d groups)) ds ≡ (all (agree_same d) ds && all (fits groups) ds)
all-fits-add_entry d groups [] = refl
all-fits-add_entry d groups (x ∷ ds) =
    swap (agree_same d x) (fits groups x) (all (agree_same d) ds) (all (fits groups) ds)
      (fits-add_entry d x groups) (all-fits-add_entry d groups ds)

-- Grouping keeps what each tool had, and adds its declarations in their order.
all_groups-group_by_tool :
    (groups : Groups) (ds : List Declared)
    → all_groups (group_by_tool groups ds)
      ≡ (all_groups groups && (all_pairs agree_same ds && all (fits groups) ds))
all_groups-group_by_tool groups [] = ground arith
all_groups-group_by_tool groups (d ∷ ds) =
    all_groups-group_by_tool (add_entry d groups) ds
    ∙ swaps (all_groups groups) (fits groups d) (all_pairs agree_same ds) (all (fits groups) ds)
        (all (agree_same d) ds) (all_groups-add_entry d groups) (all-fits-add_entry d groups ds)

all-fits-nil : (ds : List Declared) → all (fits []) ds ≡ true
all-fits-nil [] = refl
all-fits-nil (d ∷ ds) = all-fits-nil ds

pub has_none-detect_conflicts :
    (manifests : List Manifest)
    → has_none (detect_conflicts manifests) ≡ all_pairs agree_same (declared_by manifests)
unfolding detect_conflicts
has_none-detect_conflicts manifests =
    let ds = declared_by manifests in
    has_none-groups_conflicts (group_by_tool [] ds)
    ∙ all_groups-group_by_tool [] ds
    ∙ and_true (all_pairs agree_same ds) (all-fits-nil ds)
