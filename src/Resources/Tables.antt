-- ===== src/Resources/Tables.antt =====
-- app/utility/src/const_chemins.c: where each train asks for and frees its resources, and which.
use projet_commun_unirail.Prelude.{ℕ, List, [], ◌∷◌, map}
use projet_commun_unirail.Prelude.Int.{ℤ, pos}

abbrev pub l_res_req : List (List ℤ)
l_res_req =
    map pos (3 ∷ 9 ∷ []) ∷ map pos (21 ∷ 17 ∷ 11 ∷ []) ∷ map pos (24 ∷ 29 ∷ 11 ∷ 9 ∷ []) ∷ []

abbrev pub l_res_lib : List (List ℤ)
l_res_lib =
    map pos (12 ∷ 1 ∷ [])
    ∷ map pos (17 ∷ 11 ∷ 251 ∷ 20 ∷ [])
    ∷ map pos (27 ∷ 11 ∷ 12 ∷ 22 ∷ [])
    ∷ []

abbrev pub l_mask_req : List (List ℕ)
l_mask_req =
    (0b01000 ∷ 0b00001 ∷ [])
    ∷ (0b00010 ∷ 0b00100 ∷ 0b11000 ∷ [])
    ∷ (0b10000 ∷ 0b00100 ∷ 0b01000 ∷ 0b00011 ∷ [])
    ∷ []

abbrev pub l_mask_lib : List (List ℕ)
l_mask_lib =
    (0b01000 ∷ 0b00001 ∷ [])
    ∷ (0b00010 ∷ 0b00100 ∷ 0b01000 ∷ 0b10000 ∷ [])
    ∷ (0b10000 ∷ 0b00100 ∷ 0b01000 ∷ 0b00011 ∷ [])
    ∷ []

abbrev pub l_res_size : List ℕ
l_res_size = 2 ∷ 3 ∷ 4 ∷ []
