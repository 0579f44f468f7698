-- ===== src/Track/Tables.antt =====
-- app/utility/src/map.c, the tables: arcs between balises, the three routes, their speed limits;
-- app/utility/include/map.h, the position.
use projet_commun_unirail.Prelude.{
  ℕ, suc, ◌+◌, Option, none, some, List, [], ◌∷◌, map, if◌then◌else◌,
}
use projet_commun_unirail.Prelude.Int.{ℤ, pos, ◌==ℤ◌}

-- `position_t`: a balise and the distance past it, in cm.
pub record Position (F : Type 0) : Type 0 where
  pub bal : ℤ
  pub pos_r : F

abbrev pub b1 : List ℤ
b1 = map pos (
    1 ∷ 2 ∷ 3 ∷ 3 ∷ 3 ∷ 4 ∷ 5 ∷ 6 ∷ 7 ∷ 8 ∷ 9 ∷ 10 ∷ 11 ∷ 11 ∷ 12 ∷ 13 ∷ 14 ∷ 15 ∷ 15 ∷ 16 ∷ 17 ∷ 12
    ∷ 18 ∷ 19 ∷ 20 ∷ 21 ∷ 21 ∷ 22 ∷ 23 ∷ 24 ∷ 25 ∷ 250 ∷ 26 ∷ 251 ∷ 27 ∷ 28 ∷ 29 ∷ 13 ∷ 9 ∷ 9 ∷ 16
    ∷ 16 ∷ 16 ∷ 9 ∷ 25 ∷ 11 ∷ [])

abbrev pub b2 : List ℤ
b2 = map pos (
    2 ∷ 3 ∷ 4 ∷ 12 ∷ 26 ∷ 5 ∷ 6 ∷ 7 ∷ 8 ∷ 9 ∷ 1 ∷ 11 ∷ 12 ∷ 26 ∷ 13 ∷ 14 ∷ 15 ∷ 16 ∷ 21 ∷ 10 ∷ 11
    ∷ 18 ∷ 19 ∷ 20 ∷ 21 ∷ 17 ∷ 22 ∷ 23 ∷ 24 ∷ 25 ∷ 250 ∷ 26 ∷ 251 ∷ 27 ∷ 28 ∷ 29 ∷ 11 ∷ 7 ∷ 17 ∷ 22
    ∷ 22 ∷ 1 ∷ 17 ∷ 10 ∷ 20 ∷ 251 ∷ [])

-- `D`, in tenths of the unit: every entry has at most one decimal.
abbrev pub d : List ℕ
d =
    16710 ∷ 18980 ∷ 22640 ∷ 26730 ∷ 38950 ∷ 16170 ∷ 16120 ∷ 21340 ∷ 18350 ∷ 16280 ∷ 27850 ∷ 27690
    ∷ 24190 ∷ 35000 ∷ 20840 ∷ 21040 ∷ 14890 ∷ 19750 ∷ 26360 ∷ 37540 ∷ 29680 ∷ 20560 ∷ 14470 ∷ 22610
    ∷ 24940 ∷ 26080 ∷ 32720 ∷ 16640 ∷ 17160 ∷ 17030 ∷ 6430 ∷ 11650 ∷ 10250 ∷ 20150 ∷ 15800 ∷ 19030
    ∷ 30080 ∷ 26280 ∷ 34160 ∷ 40890 ∷ 42420 ∷ 29430 ∷ 35700 ∷ 36200 ∷ 25430 ∷ 25348 ∷ []

abbrev pub chemin1 : List ℤ
chemin1 = map pos (1 ∷ 2 ∷ 3 ∷ 12 ∷ 13 ∷ 7 ∷ 8 ∷ 9 ∷ [])

abbrev pub chemin2 : List ℤ
chemin2 = map pos (21 ∷ 17 ∷ 11 ∷ 251 ∷ 26 ∷ 250 ∷ 25 ∷ 20 ∷ [])

abbrev pub chemin3 : List ℤ
chemin3 =
    map pos (22 ∷ 23 ∷ 24 ∷ 25 ∷ 250 ∷ 26 ∷ 251 ∷ 27 ∷ 28 ∷ 29 ∷ 11 ∷ 12 ∷ 13 ∷ 7 ∷ 8 ∷ 9 ∷ [])

abbrev pub v_limit1 : List ℕ
v_limit1 = 40 ∷ 40 ∷ 30 ∷ 40 ∷ 40 ∷ 30 ∷ 40 ∷ 35 ∷ []

abbrev pub v_limit2 : List ℕ
v_limit2 = 30 ∷ 40 ∷ 40 ∷ 40 ∷ 30 ∷ 40 ∷ 35 ∷ 35 ∷ []

abbrev pub v_limit3 : List ℕ
v_limit3 = 40 ∷ 40 ∷ 35 ∷ 40 ∷ 40 ∷ 30 ∷ 40 ∷ 40 ∷ 40 ∷ 30 ∷ 35 ∷ 40 ∷ 30 ∷ 40 ∷ 40 ∷ 25 ∷ []

-- `chemins` and `v_limits`; `tailles_chemins` are the lengths of the routes.
abbrev pub chemins : List (List ℤ)
chemins = chemin1 ∷ chemin2 ∷ chemin3 ∷ []

abbrev pub v_limits : List (List ℕ)
v_limits = v_limit1 ∷ v_limit2 ∷ v_limit3 ∷ []

abbrev pub start_chemins : List ℤ
start_chemins = map pos (1 ∷ 21 ∷ 22 ∷ [])

-- The index `id - 1`. An array index below zero is a fault.
abbrev pub slot : ℤ → Option ℕ
slot (pos (suc i)) = some i
slot _ = none

-- `while (chemin[i] != bal) i++`: the first index of a balise, or a read past the end.
unfoldable pub seek : ℤ → List ℤ → ℕ → Option ℕ
seek bal [] i = none
seek bal (c ∷ cs) i = if c ==ℤ bal then some i else seek bal cs (i + 1)
