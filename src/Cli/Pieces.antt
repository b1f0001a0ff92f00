-- ===== src/Cli/Pieces.antt =====
-- The pieces that a file is cut into.
use storm_node.Base.{
  append_assoc, ℕ, zero, suc, ◌+◌, ◌-◌, ◌≤◌, ◌≡◌, refl, ap, ◌∙◌, List, [], ◌∷◌, ◌++◌, arith, length,
  length-append,
}
use storm_node.Wire.{Bytes}
use storm_node.Cli.{max_chunk, pieces_from, pieces}

abbrev pub concat : List Bytes → Bytes
concat [] = []
concat (x ∷ xs) = x ++ concat xs

concat-pieces_from :
    (room : ℕ) (piece bytes : Bytes) → concat (pieces_from room piece bytes) ≡ piece ++ bytes
unfolding pieces_from
concat-pieces_from room piece [] = refl
concat-pieces_from zero piece (b ∷ bytes) =
    ap (◌++◌ piece) (concat-pieces_from (max_chunk - 1) (b ∷ []) bytes)
concat-pieces_from (suc room) piece (b ∷ bytes) =
    concat-pieces_from room (piece ++ b ∷ []) bytes ∙ append_assoc piece (b ∷ []) bytes

pub concat-pieces : (bytes : Bytes) → concat (pieces bytes) ≡ bytes
unfolding pieces
concat-pieces [] = refl
concat-pieces (b ∷ bytes) = concat-pieces_from (max_chunk - 1) (b ∷ []) bytes

-- No piece is longer than a chunk can be.
abbrev pub Fits : List Bytes → Type 0
Fits [] = Unit
Fits (x ∷ xs) = (length x ≤ max_chunk) × Fits xs

pieces_from-Fits :
    (room : ℕ) (piece bytes : Bytes)
    → length piece + room ≤ max_chunk
    → Fits (pieces_from room piece bytes)
unfolding pieces_from
pieces_from-Fits room piece [] h = (omega arith, tt)
pieces_from-Fits zero piece (b ∷ bytes) h =
    (omega arith, pieces_from-Fits (max_chunk - 1) (b ∷ []) bytes (omega arith))
pieces_from-Fits (suc room) piece (b ∷ bytes) h =
    pieces_from-Fits room (piece ++ b ∷ []) bytes (omega (arith, length-append piece (b ∷ [])))

pub pieces-Fits : (bytes : Bytes) → Fits (pieces bytes)
unfolding pieces
pieces-Fits [] = tt
pieces-Fits (b ∷ bytes) = pieces_from-Fits (max_chunk - 1) (b ∷ []) bytes (omega arith)
