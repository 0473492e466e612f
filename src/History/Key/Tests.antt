-- ===== src/History/Key/Tests.antt =====
-- The theorems on keys at concrete inputs.
use cantal.Common.{◌≡◌, some, [], ◌∷◌}
use cantal.History.Key.{bytes_eq}
use cantal.History.Key.Pairs.{get_with, from_iter, decode_key, as_bytes}
use cantal.History.Key.Lookup.{get_with-from_iter, decode_key-as_bytes}
use cantal.History.Key.Sample.{counted, counted-IsCodec, two_pairs, two_pairs-IsSized}

get_with-from_iter_example :
    get_with counted (from_iter counted two_pairs) (4 ∷ []) ≡ some (some (5 ∷ 6 ∷ []))
unfolding bytes_eq
get_with-from_iter_example =
    get_with-from_iter counted two_pairs (4 ∷ []) counted-IsCodec two_pairs-IsSized

decode_key-as_bytes_example :
    decode_key counted (as_bytes (from_iter counted two_pairs)) ≡ some (from_iter counted two_pairs)
decode_key-as_bytes_example =
    decode_key-as_bytes counted two_pairs counted-IsCodec two_pairs-IsSized
