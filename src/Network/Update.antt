-- ===== src/Network/Update.antt =====
-- pkt_routeupdate_t of lab4/common/pkt.h: the distance vector that a route update packet carries.
use cs.Base.{
  ℕ, zero, suc, ◌*◌, ◌<◌, ◌≤◌, ◌≡◌, refl, List, [], ◌∷◌, ◌++◌, length, drop, replicate, arith, All,
  length-replicate,
}
use cs.Wire.Layout.{put4, get4}

-- typedef struct routeupdate_entry
pub record UpdateEntry : Type 0 where
  pub node : ℕ
  pub cost : ℕ

abbrev pub max_node_num : ℕ
max_node_num = 10

-- `entry[0]` to `entry[n - 1]`, from the bytes of the array.
unfoldable pub read_entries : ℕ → List ℕ → List UpdateEntry
read_entries zero bs = []
read_entries (suc n) bs = record { node = get4 bs 0; cost = get4 bs 4 } ∷ read_entries n (drop 8 bs)

-- The bytes of the array `entry`, cleared behind the entries that are written.
unfoldable pub write_entries : ℕ → List UpdateEntry → List ℕ
write_entries n [] = replicate (n * 8) 0
write_entries zero (e ∷ es) = []
write_entries (suc n) (e ∷ es) = put4 e.node (put4 e.cost (write_entries n es))

unfoldable pub encode_update : List UpdateEntry → List ℕ
unfolding write_entries
encode_update es = put4 (length es) (write_entries max_node_num es)

pub record IsEntry (e : UpdateEntry) : Type 0 where
  pub node_fits : e.node < 4294967296
  pub cost_fits : e.cost < 4294967296

-- At most `n` entries with fields that fit their types, written to an array of `n` entries, are
-- read back as they were, whatever follows the array.
pub read_entries-write_entries :
    (n : ℕ) (es : List UpdateEntry) (rest : List ℕ)
    → length es ≤ n
    → All IsEntry es
    → read_entries (length es) (write_entries n es ++ rest) ≡ es
unfolding read_entries write_entries
read_entries-write_entries n [] rest h fit = refl
read_entries-write_entries zero (e ∷ es) rest h fit = absurd (omega arith)
read_entries-write_entries (suc n) (e ∷ es) rest h fit =
    ground (arith, read_entries-write_entries n es rest (omega arith) fit.1)

pub length-write_entries :
    (n : ℕ) (es : List UpdateEntry) → length es ≤ n → length (write_entries n es) ≡ n * 8
unfolding write_entries
length-write_entries n [] h = length-replicate (n * 8) 0
length-write_entries zero (e ∷ es) h = absurd (omega arith)
length-write_entries (suc n) (e ∷ es) h = omega (arith, length-write_entries n es (omega arith))
