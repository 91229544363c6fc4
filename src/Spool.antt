-- ===== src/Spool.antt =====
-- lib/gat/handlers/pool/spool: the scaling down of the pool of servers (pool.go), with the part of the
-- kitchen (kitchen/chef.go) that frees a connection. Connections, servers and recipes are addresses,
-- and times are natural numbers of nanoseconds.
pub mod Down
mod Tests
use pggat.Base.{
  ℕ, ◌+◌, ◌-◌, Bool, true, false, Option, none, some, List, [], ◌∷◌, ◌++◌, ltb, if◌then◌else◌,
}
use pggat.Base.Eq.{nat_eq}
use pggat.Base.Maps.{Map, put, del}
use pggat.Base.Count.{remove_all}
use pggat.Recipe.{Recipe, try_free}

-- The connections with their recipes, the recipes with the counts of `pool.Recipe` and with their
-- connections, and the connections that have been closed.
pub record Chef : Type 0 where
  pub by_conn : Map ℕ ℕ
  pub recipe : ℕ → Recipe
  pub conns : ℕ → List ℕ
  pub closed : List ℕ

-- A server is idle or not since a time.
pub record Server : Type 0 where
  pub id : ℕ
  pub conn : ℕ
  pub idle : Bool
  pub since : ℕ

-- `deleted` are the ids with which `DeleteServer` of the pooler was called.
pub record Pool : Type 0 where
  pub idle_timeout : ℕ
  pub chef : Chef
  pub servers_by_id : Map ℕ Server
  pub servers_by_conn : Map ℕ ℕ
  pub deleted : List ℕ

abbrev at_recipe : {A : Type 0} → (ℕ → A) → ℕ → A → ℕ → A
at_recipe h r x s = if nat_eq.beq r s then x else h s

unfoldable pub ignite_freed : Chef → ℕ → ℕ → Bool × Recipe → Bool × Chef
ignite_freed c conn r (false, f) = (false, c)
ignite_freed c conn r (true, f) = (
  true,
  record c {
    by_conn = del conn c.by_conn;
    recipe = at_recipe c.recipe r f;
    conns = at_recipe c.conns r (remove_all conn (c.conns r));
    closed = conn ∷ c.closed;
  },
)

unfoldable pub ignite_found : Chef → ℕ → Option ℕ → Bool × Chef
ignite_found c conn none = (false, c)
ignite_found c conn (some r) = ignite_freed c conn r (try_free (c.recipe r))

unfoldable pub ignite : Chef → ℕ → Bool × Chef
ignite c conn = ignite_found c conn (c.by_conn.at conn)

-- A server that was freed leaves both maps and the pooler.
unfoldable pub drop_freed : Pool → Server → Bool × Chef → Pool
drop_freed p s (false, c) = record p { chef = c }
drop_freed p s (true, c) = record p {
  chef = c;
  servers_by_id = del s.id p.servers_by_id;
  servers_by_conn = del s.conn p.servers_by_conn;
  deleted = p.deleted ++ (s.id ∷ []);
}

-- One turn of the loop of `ScaleDown`, with the time `m` so far.
unfoldable pub scale_down_one : ℕ → Server → ℕ × Pool → ℕ × Pool
scale_down_one now s (m, p) =
    let idle = now - s.since in
    let until = p.idle_timeout - idle in
    let freed = drop_freed p s (ignite p.chef s.conn) in
    if s.idle
    then (if ltb p.idle_timeout idle then (m, freed) else (if ltb idle m then until else m, p))
    else (m, p)

-- The loop over the servers, of which `keys` are those that the range has not visited.
unfoldable pub visit : ℕ → Option Server → ℕ × Pool → ℕ × Pool
visit now none mp = mp
visit now (some s) mp = scale_down_one now s mp

unfoldable pub scale_down_loop : ℕ → List ℕ → ℕ × Pool → ℕ × Pool
scale_down_loop now [] mp = mp
scale_down_loop now (k ∷ ks) mp = scale_down_loop now ks (visit now ((mp.1).servers_by_id.at k) mp)

-- The time until the next call, and the pool.
unfoldable pub scale_down : Pool → ℕ → ℕ × Pool
scale_down p now = scale_down_loop now p.servers_by_id.keys (p.idle_timeout, p)
