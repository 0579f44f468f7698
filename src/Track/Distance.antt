-- ===== src/Track/Distance.antt =====
-- app/utility/src/map.c, `get_distance`. `Option` carries the reads outside an array, and a loop
-- that has not ended within its fuel.
use projet_commun_unirail.Prelude.{
  ℕ, zero, suc, ◌+◌, ◌-◌, Bool, true, false, not, ◌&&◌, ◌||◌, Option, none, some, List, [], ◌∷◌,
  ◌>>=◌, ◌==◌, if◌then◌else◌, length, get_elem?,
}
use projet_commun_unirail.Prelude.Int.{ℤ, pos, ◌==ℤ◌}
use projet_commun_unirail.Float.{Float}
use projet_commun_unirail.Track.Tables.{Position, b1, b2, d, chemins, slot, seek}

-- The inner loop over `j`: the first arc between two balises, in either direction.
unfoldable pub find_arc : ℤ → ℤ → List ℤ → List ℤ → ℕ → Option ℕ
find_arc a b [] ys j = none
find_arc a b (x ∷ xs) [] j = none
find_arc a b (x ∷ xs) (y ∷ ys) j =
    if (x ==ℤ a && y ==ℤ b) || (x ==ℤ b && y ==ℤ a) then some j else find_arc a b xs ys (j + 1)

abbrev pub next_index : List ℤ → ℕ → ℕ
next_index chemin i = if i == length chemin - 1 then 0 else i + 1

-- The length of the section that starts at index `i` of the route, in tenths.
unfoldable pub section_length : List ℤ → ℕ → Option ℕ
unfolding find_arc
section_length chemin i = do
  here ← get_elem? chemin i
  there ← get_elem? chemin (next_index chemin i)
  j ← find_arc here there b1 b2 0
  get_elem? d j

module _ {F : Type 0} ⦃f : Float F⦄ where
  -- The outer loop; `first` is `do_first_loop`.
  unfoldable pub distance_loop : ℕ → List ℤ → ℤ → ℕ → Bool → F → Option F
  distance_loop zero chemin bal2 i first distance = none
  distance_loop (suc fuel) chemin bal2 i first distance = do
    here ← get_elem? chemin i
    elim (not (here ==ℤ bal2) || first) [
      | true ↦ do
        len ← section_length chemin i
        distance_loop fuel chemin bal2 (next_index chemin i) false
            (f.add distance (f.tenths (pos len)))
      | false ↦ some distance
    ]

  -- Whether the destination lies behind, on the same balise, by the margin of 50.
  unfoldable pub is_behind : Position F → Position F → Bool
  is_behind p q = p.bal ==ℤ q.bal && f.le (f.tenths (pos 500)) (f.sub p.pos_r q.pos_r)

  unfoldable pub get_distance : Position F → Position F → ℤ → Option F
  unfolding is_behind distance_loop section_length seek
  get_distance p q chemin_id = do
    k ← slot chemin_id
    chemin ← get_elem? chemins k
    i ← seek p.bal chemin 0
    distance_loop (length chemin + 1) chemin q.bal i (is_behind p q) (f.sub q.pos_r p.pos_r)
