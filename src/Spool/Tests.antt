-- ===== src/Spool/Tests.antt =====
-- Two servers of lib/gat/handlers/pool/spool, idle for 4 and for 3 of 10.
use pggat.Base.{◌+◌, ◌<◌, ◌≡◌, refl, true, none, some, [], ◌∷◌, arith, if◌then◌else◌, ◌==◌}
use pggat.Base.Maps.{no_entries}
use pggat.Spool.{Pool, Server, scale_down}
use pggat.Spool.Down.{scale_down_late}

abbrev older : Server
older = record { id = 1; conn = 1; idle = true; since = 6 }

abbrev younger : Server
younger = record { id = 2; conn = 2; idle = true; since = 7 }

abbrev pool : Pool
pool = record {
  idle_timeout = 10;
  chef = record {
    by_conn = no_entries;
    recipe = λ r. record { min_connections = 0; max_connections = 2; count = 2 };
    conns = λ r. [];
    closed = [];
  };
  servers_by_id = record {
    keys = 1 ∷ 2 ∷ [];
    at = λ i. if i == 1 then some older else (if i == 2 then some younger else none);
  };
  servers_by_conn = no_entries;
  deleted = [];
}

scale_down_late_example : ((scale_down pool 10).0 ≡ 7) × (16 < 10 + (scale_down pool 10).0)
scale_down_late_example =
    scale_down_late pool 10 1 2 older younger refl refl refl refl refl (omega arith) (omega arith)
      (omega arith) (omega arith)
