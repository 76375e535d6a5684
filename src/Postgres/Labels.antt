-- ===== src/Postgres/Labels.antt =====
-- parseConstLabels of collector/postgres/collector.go: constant labels from "key=value,key=value".
pub mod Laws
use exporter_plus.Prelude.{String, List, [], ◌∷◌, ◌||◌, if◌then◌else◌}
use exporter_plus.Prelude.Text.{split, trim_space, is_empty}
use exporter_plus.Prelude.GoMap.{GoMap, insert}

-- `labels[key] = value`, unless one of them is empty
unfoldable pub set_label : String → String → GoMap String → GoMap String
set_label key value labels =
    if is_empty key || is_empty value then labels else insert key value labels

-- One part, split at the equals signs; without exactly one of them it is passed over.
unfoldable pub add_pair : List String → GoMap String → GoMap String
unfolding set_label
add_pair (key ∷ value ∷ []) labels = set_label (trim_space key) (trim_space value) labels
add_pair _ labels = labels

-- the loop over the parts
unfoldable pub add_parts : List String → GoMap String → GoMap String
unfolding add_pair
add_parts [] labels = labels
add_parts (p ∷ ps) labels = add_parts ps (add_pair (split b'=' (trim_space p)) labels)

unfoldable pub parse_const_labels : String → GoMap String
unfolding add_parts
parse_const_labels s =
    let trimmed = trim_space s in if is_empty trimmed then [] else add_parts (split b',' trimmed) []
