-- ===== src/Overlay/Neighbors.antt =====
-- lab4/overlay/neighbortable.c: the connections to the neighbours. `malloc` is taken to succeed, and
-- `gethostbyname` to know the hosts of topology.dat.
pub mod Laws
use Prim.Native.String.{String}
use cs.Base.{
  ℕ, zero, suc, ◌/◌, ◌%◌, List, [], ◌∷◌, Bool, not, ◌&&◌, ◌==◌, is_positive, is_negative,
  if◌then◌else◌, minus_one, Option, none, some, Run, ok, fault, and_then,
}
use cs.Topology.{Line, Site, get_my_node_id, get_nbr_num, ends}

-- typedef struct neighborentry
pub record NbrEntry : Type 0 where
  pub node : ℕ
  pub ip : ℕ
  pub conn : ℕ

-- topology_getNodeIDfromip: the last number of an address in network order
unfoldable pub get_node_id_from_ip : ℕ → ℕ
get_node_id_from_ip ip = ip / 16777216 % 256

-- What the loop of nt_create writes for each line: nothing, or one entry. `address` is what
-- `gethostbyname` gives for a name.
unfoldable pub entries_of : Site → (String → ℕ) → List Line → List NbrEntry
entries_of site address [] = []
entries_of site address (l ∷ ls) =
    let me = get_my_node_id site in
    let (a, b) = ends site l in
    let rest = entries_of site address ls in
    if a == me
    then record { node = b; ip = address l.host2; conn = minus_one } ∷ rest
    else if b == me
    then record { node = a; ip = address l.host1; conn = minus_one } ∷ rest
    else rest

-- nt_create; `none` is NULL. The table is the entries that are written.
unfoldable pub nt_create : Site → (String → ℕ) → Option (List NbrEntry)
nt_create site address = elim site.file [
  | none ↦ none
  | some ls ↦ some (entries_of site address ls)
]

-- How often a loop `for (i = 0; i < n; i++)` goes round for an int `n`.
abbrev pub rounds : ℕ → ℕ
rounds n = if is_negative n then 0 else n

-- The loop of nt_addconn, with `n` entries left; an entry past the table is a read out of bounds.
unfoldable pub addconn_from : ℕ → List NbrEntry → ℕ → ℕ → Run (ℕ × List NbrEntry)
addconn_from zero es node conn = ok (minus_one, es)
addconn_from (suc n) [] node conn = fault
addconn_from (suc n) (e ∷ es) node conn =
    if is_positive e.node && e.node == node
    then ok (1, record e { conn = conn } ∷ es)
    else and_then (addconn_from n es node conn) (λ r. ok (r.0, e ∷ r.1))

unfoldable pub nt_addconn : Site → List NbrEntry → ℕ → ℕ → Run (ℕ × List NbrEntry)
nt_addconn site t node conn = addconn_from (rounds (get_nbr_num site)) t node conn

-- What a call does outside the process: it connects a new socket to an address, closes a descriptor,
-- or frees the table.
pub data Call : Type 0 where
  connect : ℕ → ℕ → Call
  close : ℕ → Call
  free_table : Call

-- The loop of nt_destroy, which returns at the first connection.
unfoldable pub destroy_from : ℕ → List NbrEntry → Run (List Call)
destroy_from zero es = ok []
destroy_from (suc n) [] = fault
destroy_from (suc n) (e ∷ es) =
    if e.conn == minus_one then destroy_from n es else ok (close e.conn ∷ free_table ∷ [])

unfoldable pub nt_destroy : Site → List NbrEntry → Run (List Call)
nt_destroy site t = destroy_from (rounds (get_nbr_num site)) t
