-- ===== src/Compose/Merge/Nearest.antt =====
-- The nearest layer wins: the dictionaries of `_merge` against the list of the layers that mention a
-- setting.
use devrepro_doctor.Prelude.{
  ◌≡◌, refl, sym, ap, ◌∙◌, subst, String, Bool, true, false, Option, none, some, List, [], ◌∷◌,
  ◌++◌, append-nil, append_assoc, str_eq_iff, if◌then◌else◌, if_ind, if_cases, any, map, arith,
  Bool-cases, inl, inr,
}
use devrepro_doctor.Compose.Merge.{
  Policy, Value, Identity, same, find, push, MergeState, is_owned, merge_item, merge_items,
  merge_tables, merge_layers, merged_tables, or_nothing, nothing_merged,
}

same-path : (i j : Identity) → same i j ≡ true → i ≡ j
same-path (a, b) (c, d) h =
    let left : a ≡ c = (str_eq_iff a c).0 (ground arith) in
    let right : b ≡ d = (str_eq_iff b d).0 (ground arith) in cc (left, right)

same-left : (i j k : Identity) → same k j ≡ true → same k i ≡ same j i
same-left i j k h = ap (λ l. same l i) (same-path k j h)

pub same_refl : (i : Identity) → same i i ≡ true
same_refl i = ground (arith, (str_eq_iff i.0 i.0).1 refl, (str_eq_iff i.1 i.1).1 refl)

same-not : (i j : Identity) → same i j ≡ false → same j i ≡ false
same-not i j h = elim (Bool-cases (same j i)) [
  | inl e ↦ absurd (cc (h, subst (λ k. same k j ≡ true) (same-path j i e) (same_refl j)))
  | inr e ↦ e
]

abbrev pub or_else : {V : Type 0} → Option V → Option V → Option V
or_else none o = o
or_else (some v) o = some v

find-snoc :
    {V : Type 0} (i j : Identity) (v : V) (m : List (Identity × V))
    → find i (m ++ (j, v) ∷ []) ≡ or_else (find i m) (if same j i then some v else none)
find-snoc i j v [] = refl
find-snoc i j v ((k, w) ∷ m) = ground (arith, find-snoc i j v m)

abbrev one_if : Bool → String → List String
one_if true x = x ∷ []
one_if false x = []

find-push :
    (i j : Identity) (x : String) (m : List (Identity × List String))
    → or_nothing (find i (push j x m)) ≡ or_nothing (find i m) ++ one_if (same j i) x
unfolding push
find-push i j x [] = ground arith
find-push i j x ((k, xs) ∷ m) = elim (Bool-cases (same k j)) [
  | inl e ↦ ground (arith, same-left i j k e, append-nil (or_nothing (find i m)))
  | inr e ↦ elim (Bool-cases (same k i)) [
    | inl f ↦ ground (arith, same-not i j (sym (same-left j i k f) ∙ e), append-nil xs)
    | inr f ↦ ground (arith, find-push i j x m)
  ]
]

abbrev pub is_some : {V : Type 0} → Option V → Bool
is_some none = false
is_some (some v) = true

pub is_owned-find : (i : Identity) (st : MergeState) → is_owned i st ≡ is_some (find i st.owner)
is_owned-find i st = go st.owner
  where
    go :
        (m : List (Identity × String))
        → any (λ (e : Identity × String). same e.0 i) m ≡ is_some (find i m)
    go [] = refl
    go (e ∷ m) = ground (arith, go m)

-- The layers that mention a setting, with what they say, the nearest first.
abbrev pub item_mentions :
    Identity → String → String → List (String × Value) → List (String × Value)
item_mentions i label table [] = []
item_mentions i label table ((key, value) ∷ items) =
    let rest = item_mentions i label table items in
    if same (table, key) i then (label, value) ∷ rest else rest

abbrev pub table_mentions :
    Identity → String → List (String × List (String × Value)) → List (String × Value)
table_mentions i label [] = []
table_mentions i label ((table, items) ∷ tables) =
    item_mentions i label table items ++ table_mentions i label tables

unfoldable pub mentions : Identity → List (String × Policy) → List (String × Value)
mentions i [] = []
mentions i ((label, policy) ∷ parsed) =
    table_mentions i label (merged_tables policy) ++ mentions i parsed

abbrev pub labels : List (String × Value) → List String
labels ms = map (λ (m : String × Value). m.0) ms

-- The dictionaries say of a setting what the mentions say: the first one's value and label, and the
-- labels of the others.
abbrev pub Agrees : Identity → MergeState → List (String × Value) → Type 0
Agrees i st [] =
    (find i st.tables ≡ none) × (find i st.owner ≡ none) × (or_nothing (find i st.overridden) ≡ [])
Agrees i st ((label, value) ∷ ms) =
    (find i st.tables ≡ some value)
    × (find i st.owner ≡ some label)
    × (or_nothing (find i st.overridden) ≡ labels ms)

labels-append : (xs ys : List (String × Value)) → labels (xs ++ ys) ≡ labels xs ++ labels ys
labels-append [] ys = refl
labels-append (x ∷ xs) ys = ap (λ t. x.0 ∷ t) (labels-append xs ys)

abbrev one_mention : Bool → String → Value → List (String × Value)
one_mention true label value = (label, value) ∷ []
one_mention false label value = []

Agrees-transfer :
    (i : Identity) (st next : MergeState) (ms : List (String × Value))
    → find i next.tables ≡ find i st.tables
    → find i next.owner ≡ find i st.owner
    → or_nothing (find i next.overridden) ≡ or_nothing (find i st.overridden)
    → Agrees i st ms
    → Agrees i next ms
Agrees-transfer i st next [] a b c h = (a ∙ h.0, b ∙ h.1, c ∙ h.2)
Agrees-transfer i st next (m ∷ ms) a b c h = (a ∙ h.0, b ∙ h.1, c ∙ h.2)

find-other :
    {V : Type 0} (i j : Identity) (v : V) (m : List (Identity × V))
    → same j i ≡ false
    → find i (m ++ (j, v) ∷ []) ≡ find i m
find-other i j v m other = ground (arith, find-snoc i j v m)

find-here :
    {V : Type 0} (i j : Identity) (v : V) (m : List (Identity × V))
    → same j i ≡ true
    → find i m ≡ none
    → find i (m ++ (j, v) ∷ []) ≡ some v
find-here i j v m this new = ground (arith, find-snoc i j v m)

Agrees-other :
    (i j : Identity) (label : String) (v : Value) (st : MergeState) (ms : List (String × Value))
    → same j i ≡ false
    → Agrees i st ms
    → Agrees i (merge_item st label j v) ms
unfolding merge_item
Agrees-other i j label v st ms other h =
    if_ind (λ next. Agrees i next ms) (is_owned j st)
      (Agrees-transfer i st _ ms refl refl
        (ground (
          arith,
          find-push i j label st.overridden,
          append-nil (or_nothing (find i st.overridden)),
        ))
        h)
      (Agrees-transfer i st _ ms (find-other i j v st.tables other)
        (find-other i j label st.owner other) refl h)

is_owned-same :
    (i j : Identity) (st : MergeState) → same j i ≡ true → is_owned j st ≡ is_some (find i st.owner)
is_owned-same i j st this = ap (λ k. is_owned k st) (same-path j i this) ∙ is_owned-find i st

Agrees-same :
    (i j : Identity) (label : String) (v : Value) (st : MergeState) (ms : List (String × Value))
    → same j i ≡ true
    → Agrees i st ms
    → Agrees i (merge_item st label j v) (ms ++ (label, v) ∷ [])
unfolding merge_item
Agrees-same i j label v st [] this h =
    if_cases (λ next. Agrees i next ((label, v) ∷ [])) (is_owned j st)
      (λ owned. absurd (cc (owned, is_owned-same i j st this, h.1)))
      (λ new. (find-here i j v st.tables this h.0, find-here i j label st.owner this h.1, h.2))
Agrees-same i j label v st ((first, w) ∷ ms) this h =
    if_cases (λ next. Agrees i next ((first, w) ∷ (ms ++ (label, v) ∷ []))) (is_owned j st)
      (λ owned. (
        h.0,
        h.1,
        ground (arith, find-push i j label st.overridden, h.2, labels-append ms ((label, v) ∷ [])),
      ))
      (λ new. absurd (cc (new, is_owned-same i j st this, h.1)))

Agrees-items :
    (i : Identity) (label table : String) (items : List (String × Value)) (st : MergeState)
    (ms : List (String × Value))
    → Agrees i st ms
    → Agrees i (merge_items st label table items) (ms ++ item_mentions i label table items)
unfolding merge_items
Agrees-items i label table [] st ms h = subst (Agrees i st) (sym (append-nil ms)) h
Agrees-items i label table ((key, value) ∷ items) st ms h =
    let next = merge_item st label (table, key) value in
    let rest = item_mentions i label table items in
    elim (Bool-cases (same (table, key) i)) [
      | inl this ↦
          subst (Agrees i (merge_items next label table items))
            (ground (arith, append_assoc ms ((label, value) ∷ []) rest))
            (Agrees-items i label table items next (ms ++ (label, value) ∷ [])
              (Agrees-same i (table, key) label value st ms this h))
      | inr other ↦ subst (Agrees i (merge_items next label table items)) (ground arith) (
          Agrees-items i label table items next ms
            (Agrees-other i (table, key) label value st ms other h))
    ]

Agrees-tables :
    (i : Identity) (label : String) (tables : List (String × List (String × Value)))
    (st : MergeState) (ms : List (String × Value))
    → Agrees i st ms
    → Agrees i (merge_tables st label tables) (ms ++ table_mentions i label tables)
unfolding merge_tables
Agrees-tables i label [] st ms h = subst (Agrees i st) (sym (append-nil ms)) h
Agrees-tables i label ((table, items) ∷ tables) st ms h =
    subst (Agrees i (merge_tables (merge_items st label table items) label tables))
      (append_assoc ms (item_mentions i label table items) (table_mentions i label tables))
      (Agrees-tables i label tables (merge_items st label table items)
        (ms ++ item_mentions i label table items) (Agrees-items i label table items st ms h))

Agrees-layers :
    (i : Identity) (parsed : List (String × Policy)) (st : MergeState) (ms : List (String × Value))
    → Agrees i st ms
    → Agrees i (merge_layers st parsed) (ms ++ mentions i parsed)
unfolding merge_layers mentions
Agrees-layers i [] st ms h = subst (Agrees i st) (sym (append-nil ms)) h
Agrees-layers i ((label, policy) ∷ parsed) st ms h =
    let tables = merged_tables policy in
    subst (Agrees i (merge_layers (merge_tables st label tables) parsed))
      (append_assoc ms (table_mentions i label tables) (mentions i parsed))
      (Agrees-layers i parsed (merge_tables st label tables) (ms ++ table_mentions i label tables)
        (Agrees-tables i label tables st ms h))

-- After the merge each setting has the value and the label of the first layer that mentions it, and
-- the labels of all later mentions as overridden, in their order; a setting that no layer mentions is
-- in none of the dictionaries.
pub merge_layers-Agrees :
    (i : Identity) (parsed : List (String × Policy))
    → Agrees i (merge_layers nothing_merged parsed) (mentions i parsed)
merge_layers-Agrees i parsed = Agrees-layers i parsed nothing_merged [] (refl, refl, refl)
