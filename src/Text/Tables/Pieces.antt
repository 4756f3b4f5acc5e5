-- ===== src/Text/Tables/Pieces.antt =====
-- SplitToSet and SplitToMap against SplitToVec, and JoinMap against AddKV.
use mathlib.Core.Option.{map as option_map}
use ytlib.Base.{
  ◌<◌, ℕ, zero, suc, ◌+◌, ◌-◌, ◌≡◌, ◌↔◌, refl, ap, sym, ◌∙◌, Bool, false, ◌&&◌, List, [], ◌∷◌, ◌++◌,
  append_assoc, append-nil, Option, none, some, All, ltb, if◌then◌else◌, Bool-cases, inl, inr,
  arith, length,
}
use ytlib.Text.Strings.{empty, find, find_at, substr, or_else}
use ytlib.Text.Split.Laws.{join-split}
use ytlib.Text.Split.{join_vec, trim, piece, split_from, split_to_vec}
use ytlib.Text.Tables.{
  emplace, set_piece, split_set_from, split_to_set, map_piece, split_map_from, split_to_map,
  same_string, join_map_rest, join_map, add_kv,
}
use ytlib.Text.Tables.Keys.{IsKeys, All-emplace, emplace-IsKeys}

-- A set with all of the items
pub emplace_all : List (List ℕ) → List (List ℕ) → List (List ℕ)
emplace_all [] result = result
emplace_all (item ∷ items) result = emplace_all items (emplace item result)

option_map-option_map {ℓ} :
    {A : Type 0} {B : Type 0} {C : Type ℓ} (f : B → C) (g : A → B) (h : A → C)
    → ((x : A) → f (g x) ≡ h x)
    → (o : Option A) → option_map f (option_map g o) ≡ option_map h o
option_map-option_map f g h e none = refl
option_map-option_map f g h e (some x) = ap some (e x)

set_piece-piece :
    (trimmed clear : Bool) (sub_str : List ℕ) (rest result : List (List ℕ))
    → emplace_all (piece trimmed clear sub_str rest) result
      ≡ emplace_all rest (set_piece trimmed clear sub_str result)
unfolding emplace_all set_piece
set_piece-piece trimmed clear sub_str rest result =
    elim (Bool-cases (clear && empty (if trimmed then trim sub_str else sub_str))) [
      | inl t ↦ rw t refl
      | inr f ↦ rw f refl
    ]

split_set_from_lem :
    (fuel : ℕ) (source sep : List ℕ) (trimmed clear : Bool) (pos : ℕ) (result : List (List ℕ))
    → split_set_from fuel source sep trimmed clear pos result
      ≡ option_map (λ vec. emplace_all vec result) (split_from fuel source sep trimmed clear pos)
unfolding split_set_from split_from emplace_all
split_set_from_lem zero source sep trimmed clear pos result = refl
split_set_from_lem (suc fuel) source sep trimmed clear pos result =
    let pos_end : ℕ = or_else (find source sep pos) (length source) in
    let sub_str : List ℕ = substr source pos (pos_end - pos) in
    elim (Bool-cases (ltb pos_end (length source))) [
      | inl t ↦
          rw (t, split_set_from, split_from)
            (split_set_from_lem fuel source sep trimmed clear (pos_end + length sep)
                (set_piece trimmed clear sub_str result)
              ∙ sym (
                  option_map-option_map (λ vec. emplace_all vec result)
                    (piece trimmed clear sub_str)
                    (λ vec. emplace_all vec (set_piece trimmed clear sub_str result))
                    (λ vec. set_piece-piece trimmed clear sub_str vec result)
                    (split_from fuel source sep trimmed clear (pos_end + length sep))))
      | inr f ↦
          rw (f, split_set_from, split_from)
            (ap some (sym (set_piece-piece trimmed clear sub_str [] result)))
    ]

emplace_all-IsKeys :
    (items result : List (List ℕ)) → IsKeys result → IsKeys (emplace_all items result)
unfolding emplace_all
emplace_all-IsKeys [] result h = h
emplace_all-IsKeys (item ∷ items) result h =
    emplace_all-IsKeys items (emplace item result) (emplace-IsKeys item result h)

All-emplace_all :
    (P : List ℕ → Type 0) (items result : List (List ℕ))
    → All P (emplace_all items result) ↔ (All P items × All P result)
unfolding emplace_all
All-emplace_all P [] result = (λ h. (tt, h), λ h. h.1)
All-emplace_all P (item ∷ items) result =
    let rest = All-emplace_all P items (emplace item result) in
    let one = All-emplace P item result in
    (
      λ h. let (later, now) = rest.0 h in (((one.0 now).0, later), (one.0 now).1),
      λ h. rest.1 (h.0.1, one.1 (h.0.0, h.1)),
    )

split_to_set_run :
    (source sep : List ℕ) (trimmed clear : Bool)
    → split_to_set source sep trimmed clear
      ≡ option_map (λ vec. emplace_all vec []) (split_to_vec source sep trimmed clear)
unfolding split_to_set split_to_vec emplace_all
split_to_set_run source sep trimmed clear = elim (Bool-cases (empty source)) [
  | inl a ↦ rw a refl
  | inr b ↦ elim (Bool-cases (empty sep)) [
    | inl c ↦ rw (b, c) refl
    | inr d ↦ rw (b, d) (split_set_from_lem (suc (length source)) source sep trimmed clear 0 [])
  ]
]

-- What SplitToVec appends for a list of pieces
pub pieces_of : Bool → Bool → List (List ℕ) → List (List ℕ)
pieces_of trimmed clear [] = []
pieces_of trimmed clear (s ∷ vec) = piece trimmed clear s (pieces_of trimmed clear vec)

-- The pieces are the same whether they are trimmed and cleared in the loop or behind it.
split_from-pieces_of :
    (fuel : ℕ) (source sep : List ℕ) (trimmed clear : Bool) (pos : ℕ)
    → split_from fuel source sep trimmed clear pos
      ≡ option_map (pieces_of trimmed clear) (split_from fuel source sep false false pos)
unfolding split_from pieces_of
split_from-pieces_of zero source sep trimmed clear pos = refl
split_from-pieces_of (suc fuel) source sep trimmed clear pos =
    let pos_end : ℕ = or_else (find source sep pos) (length source) in
    let sub_str : List ℕ = substr source pos (pos_end - pos) in
    elim (Bool-cases (ltb pos_end (length source))) [
      | inl t ↦
          rw (t, split_from)
            (ap (option_map (piece trimmed clear sub_str))
                (split_from-pieces_of fuel source sep trimmed clear (pos_end + length sep))
              ∙ option_map-option_map (piece trimmed clear sub_str) (pieces_of trimmed clear)
                  (λ vec. piece trimmed clear sub_str (pieces_of trimmed clear vec)) (λ vec. refl)
                  (split_from fuel source sep false false (pos_end + length sep))
              ∙ sym (
                  option_map-option_map (pieces_of trimmed clear) (piece false false sub_str)
                    (λ vec. piece trimmed clear sub_str (pieces_of trimmed clear vec)) (λ vec. refl)
                    (split_from fuel source sep false false (pos_end + length sep))))
      | inr f ↦ rw (f, split_from) refl
    ]

split_to_vec-pieces_of :
    (source sep : List ℕ) (trimmed clear : Bool)
    → split_to_vec source sep trimmed clear
      ≡ option_map (pieces_of trimmed clear) (split_to_vec source sep false false)
unfolding split_to_vec pieces_of
split_to_vec-pieces_of source sep trimmed clear = elim (Bool-cases (empty source)) [
  | inl a ↦ rw a refl
  | inr b ↦ elim (Bool-cases (empty sep)) [
    | inl c ↦ rw (b, c) refl
    | inr d ↦ rw (b, d) (split_from-pieces_of (suc (length source)) source sep trimmed clear 0)
  ]
]

-- SplitToSet ends within the fuel that it is given, for any source, separator that is not empty and
-- flags: the pieces that stand in the source, joined again with the separator, are the source, and the
-- set has those of them that are left by trimming and clearing, in the order of strings and none twice.
pub split_to_set_lem :
    (source sep : List ℕ) (trimmed clear : Bool)
    → 0 < length sep
    → (vec : List (List ℕ)) × (result : List (List ℕ)) × (join_vec vec sep ≡ source)
      × (split_to_vec source sep trimmed clear ≡ some (pieces_of trimmed clear vec))
      × (split_to_set source sep trimmed clear ≡ some result)
      × IsKeys result
      × ((P : List ℕ → Type 0) → All P result ↔ All P (pieces_of trimmed clear vec))
split_to_set_lem source sep trimmed clear h =
    let (vec, ends, joined) = join-split source sep h in
    let kept = pieces_of trimmed clear vec in
    let run : split_to_vec source sep trimmed clear ≡ some kept =
      split_to_vec-pieces_of source sep trimmed clear
      ∙ ap (option_map (pieces_of trimmed clear)) ends in
    (
      vec,
      emplace_all kept [],
      joined,
      run,
      split_to_set_run source sep trimmed clear ∙ ap (option_map (λ l. emplace_all l [])) run,
      emplace_all-IsKeys kept [] (unfold IsKeys in tt),
      λ P. let both = All-emplace_all P kept [] in (λ g. (both.0 g).0, λ g. both.1 (g, tt)),
    )

-- A map with all of the pieces that have a separator in them
unfoldable pub map_pieces :
    List ℕ → Bool → Bool → List (List ℕ) → List (List ℕ × List ℕ) → List (List ℕ × List ℕ)
map_pieces msep trimmed clear [] result = result
map_pieces msep trimmed clear (kv_str ∷ vec) result =
    map_pieces msep trimmed clear vec (map_piece msep trimmed clear kv_str result)

map_piece-empty :
    (msep : List ℕ) (trimmed clear : Bool) (result : List (List ℕ × List ℕ))
    → empty msep ≡ false
    → map_piece msep trimmed clear [] result ≡ result
unfolding map_piece find find_at
map_piece-empty [] trimmed clear result h = absurd (ground arith)
map_piece-empty (c ∷ msep) trimmed clear result h = refl

-- An empty piece is passed over, as one without a separator.
skip_empty :
    (source msep : List ℕ) (trimmed clear : Bool) (first last : ℕ) (result : List (List ℕ × List ℕ))
    → empty msep ≡ false
    → (if ltb first last
        then map_piece msep trimmed clear (substr source first (last - first)) result
        else result)
      ≡ map_piece msep trimmed clear (substr source first (last - first)) result
skip_empty source msep trimmed clear first last result h = elim (Bool-cases (ltb first last)) [
  | inl t ↦ rw t refl
  | inr f ↦
      let none_left : last - first ≡ 0 = ground arith in
      rw (f, none_left) (sym (map_piece-empty msep trimmed clear result h))
]

split_map_from_lem :
    (fuel : ℕ) (source vsep msep : List ℕ) (trimmed clear : Bool) (pos : ℕ)
    (result : List (List ℕ × List ℕ))
    → empty msep ≡ false
    → split_map_from fuel source vsep msep trimmed clear pos result
      ≡ option_map
          (λ vec. map_pieces msep trimmed clear vec result)
          (split_from fuel source vsep false false pos)
unfolding split_map_from split_from map_pieces
split_map_from_lem zero source vsep msep trimmed clear pos result h = refl
split_map_from_lem (suc fuel) source vsep msep trimmed clear pos result h =
    let pos_end : ℕ = or_else (find source vsep pos) (length source) in
    let kv_str : List ℕ = substr source pos (pos_end - pos) in
    let same = skip_empty source msep trimmed clear pos pos_end result h in
    elim (Bool-cases (ltb pos_end (length source))) [
      | inl t ↦
          rw (t, split_map_from, split_from)
            (ap (split_map_from fuel source vsep msep trimmed clear (pos_end + length vsep)) same
              ∙ split_map_from_lem fuel source vsep msep trimmed clear (pos_end + length vsep)
                  (map_piece msep trimmed clear kv_str result) h
              ∙ sym (
                  option_map-option_map (λ vec. map_pieces msep trimmed clear vec result)
                    (piece false false kv_str)
                    (λ vec.
                      map_pieces msep trimmed clear vec
                        (map_piece msep trimmed clear kv_str result))
                    (λ vec. refl)
                    (split_from fuel source vsep false false (pos_end + length vsep))))
      | inr f ↦ rw (f, split_map_from, split_from) (ap some same)
    ]

-- SplitToMap is SplitToVec by the outer separator, each piece put into the map in turn, if the
-- separators are not empty and differ.
pub split_to_map_pieces :
    (source vsep msep : List ℕ) (trimmed clear : Bool)
    → empty vsep ≡ false
    → empty msep ≡ false
    → same_string vsep msep ≡ false
    → split_to_map source vsep msep trimmed clear
      ≡ option_map
          (λ vec. map_pieces msep trimmed clear vec [])
          (split_to_vec source vsep false false)
unfolding split_to_map split_to_vec map_pieces
split_to_map_pieces source vsep msep trimmed clear hv hm differ = elim (Bool-cases (empty source)) [
  | inl a ↦ rw a refl
  | inr b ↦
      rw (b, hv, hm, differ)
        (split_map_from_lem (suc (length source)) source vsep msep trimmed clear 0 [] hm)
]

-- The pairs of a map added to a string in turn
pub add_all : List ℕ → List (List ℕ × List ℕ) → List ℕ → List ℕ → List ℕ
add_all s [] vsep msep = s
add_all s ((k, v) ∷ m) vsep msep = add_all (add_kv s k v vsep msep) m vsep msep

empty-append : (s t : List ℕ) → empty t ≡ false → empty (s ++ t) ≡ false
empty-append [] t h = h
empty-append (c ∷ s) t h = refl

empty-append_left : (s t : List ℕ) → empty s ≡ false → empty (s ++ t) ≡ false
empty-append_left [] t h = absurd (ground arith)
empty-append_left (c ∷ s) t h = refl

add_all-join :
    (s : List ℕ) (m : List (List ℕ × List ℕ)) (vsep msep : List ℕ)
    → empty s ≡ false
    → add_all s m vsep msep ≡ s ++ join_map_rest m vsep msep
unfolding add_all add_kv join_map_rest
add_all-join s [] vsep msep h = sym (append-nil s)
add_all-join s ((k, v) ∷ m) vsep msep h = rw h (
    add_all-join ((s ++ vsep) ++ (k ++ (msep ++ v))) m vsep msep
      (empty-append_left (s ++ vsep) (k ++ (msep ++ v)) (empty-append_left s vsep h))
    ∙ append_assoc (s ++ vsep) (k ++ (msep ++ v)) (join_map_rest m vsep msep)
    ∙ append_assoc s vsep ((k ++ (msep ++ v)) ++ join_map_rest m vsep msep)
    ∙ ap (λ l. s ++ (vsep ++ l))
        (append_assoc k (msep ++ v) (join_map_rest m vsep msep)
          ∙ ap (λ l. k ++ l) (append_assoc msep v (join_map_rest m vsep msep))))

-- JoinMap gives the string that AddKV makes of an empty one, pair by pair, if the inner separator is
-- not empty.
pub join_map_lem :
    (m : List (List ℕ × List ℕ)) (vsep msep : List ℕ)
    → empty msep ≡ false
    → join_map m vsep msep ≡ add_all [] m vsep msep
unfolding join_map add_all add_kv
join_map_lem [] vsep msep h = refl
join_map_lem ((k, v) ∷ m) vsep msep h = sym (
    add_all-join (k ++ (msep ++ v)) m vsep msep
      (empty-append k (msep ++ v) (empty-append_left msep v h))
    ∙ append_assoc k (msep ++ v) (join_map_rest m vsep msep)
    ∙ ap (λ l. k ++ l) (append_assoc msep v (join_map_rest m vsep msep)))
