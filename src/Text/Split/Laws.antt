-- ===== src/Text/Split/Laws.antt =====
-- Joining undoes splitting, and the fuel of the loop is enough.
use mathlib.Core.Option.{map as option_map}
use ytlib.Base.{
  ℕ, suc, zero, ◌+◌, ◌-◌, ◌≤◌, ◌<◌, ◌≡◌, refl, ap, sym, ◌∙◌, false, List, [], ◌∷◌, ◌++◌, append-nil,
  some, arith, Option-cases, inl, inr, length, take, drop, length-drop, take_all, drop-drop,
  drop-append, ltb_irrefl, lt→ltb,
}
use ytlib.Text.Strings.{find, or_else, first_not_space, last_not_space}
use ytlib.Text.Strings.Find.{find_lem}
use ytlib.Text.Split.{trim, trim_string, split_from, split_to_vec, join_rest, join_vec}

-- Whether `vec` is the pieces of `s`, each behind a separator.
abbrev pub Joins : List ℕ → List ℕ → List (List ℕ) → Type 0
Joins s sep vec = join_rest vec sep ≡ sep ++ s

join-split_from :
    (fuel : ℕ) (s sep : List ℕ) (pos : ℕ)
    → 0 < length sep
    → pos ≤ length s
    → length s - pos < fuel
    → (vec : List (List ℕ)) × (split_from fuel s sep false false pos ≡ some vec)
      × Joins (drop pos s) sep vec
unfolding split_from join_rest
join-split_from zero s sep pos h le enough = absurd (omega arith)
join-split_from (suc fuel) s sep pos h le enough = elim (Option-cases (find s sep pos)) [
  | inl none_left ↦ (
    take (length s - pos) (drop pos s) ∷ [],
    rw none_left (rw (ltb_irrefl (length s))),
    rw (take_all (length s - pos) (drop pos s) (length-drop pos s))
        (ap (λ t. sep ++ t) (append-nil (drop pos s))),
  )
  | inr (j, found) ↦
      let (n, eq, at) = find_lem s sep pos found in
      let len = at.0 in
      let size = length-drop pos s in
      let (vec, more, joined) =
        join-split_from fuel s sep (j + length sep) h (omega arith) (omega arith) in
      let e : j - pos ≡ n = omega arith in
      let d : drop (j + length sep) s ≡ drop (length sep) (drop n (drop pos s)) =
        ap (λ k. drop k s) {y = pos + n + length sep} (omega arith)
        ∙ sym (drop-drop (length sep) (pos + n) s)
        ∙ ap (λ t. drop (length sep) t) (sym (drop-drop n pos s)) in
      (
        take (j - pos) (drop pos s) ∷ vec,
        rw (found, more) (rw (lt→ltb j (length s) (omega arith))),
        rw (joined, e, d) (ap (λ t. sep ++ t) (sym at.1)),
      )
]

join_rest-join_vec :
    (vec : List (List ℕ)) (sep s : List ℕ) → 0 < length sep → Joins s sep vec → join_vec vec sep ≡ s
unfolding join_rest join_vec
join_rest-join_vec [] [] s h e = absurd (omega arith)
join_rest-join_vec [] (c ∷ sep) s h e = absurd (ground arith)
join_rest-join_vec (x ∷ vec) sep s h e =
    sym (drop-append sep (x ++ join_rest vec sep) (length sep) refl)
    ∙ ap (λ t. drop (length sep) t) e
    ∙ drop-append sep s (length sep) refl

-- SplitToVec ends within the fuel that it is given, and joining the pieces again with the separator
-- gives the source back, if the pieces are neither trimmed nor cleared and the separator is not
-- empty.
pub join-split :
    (source sep : List ℕ)
    → 0 < length sep
    → (vec : List (List ℕ)) × (split_to_vec source sep false false ≡ some vec)
      × (join_vec vec sep ≡ source)
unfolding split_to_vec
join-split [] sep h = ([], refl, unfold join_vec in refl)
join-split (c ∷ s) [] h = absurd (omega arith)
join-split (c ∷ s) (d ∷ sep) h =
    let (vec, ends, joined) =
      join-split_from (suc (length (c ∷ s))) (c ∷ s) (d ∷ sep) 0 (omega arith) (omega arith)
        (omega arith) in
    (vec, ends, join_rest-join_vec vec (d ∷ sep) (c ∷ s) (omega arith) joined)

-- The two overloads of Trim agree.
pub trim-trim_string : (s : List ℕ) → trim s ≡ trim_string s
unfolding trim trim_string
trim-trim_string [] = refl
trim-trim_string (c ∷ s) =
    let cut = take (or_else (option_map suc (last_not_space (c ∷ s))) 0) (c ∷ s) in
    let p = or_else (first_not_space cut) (length cut) in
    take_all (length cut - p) (drop p cut) (length-drop p cut)
