-- ===== src/Prelude/Net.antt =====
-- `std::net::IpAddr` and `std::time::Duration`: an address is its 32 or 128 bits as a number, and
-- durations and instants are counted in nanoseconds.
use Prim.Native.Nat.{ℕ, ◌*◌, ◌/◌}
use mathlib.Core.Bool.{Bool}
use mathlib.Core.List.{List}
use mathlib.Core.Option.{Option}
use native.Mathlib.Decide.{ℕ_discrete}

pub data IpAddr : Type 0 where
  v4 : ℕ → IpAddr
  v6 : ℕ → IpAddr

unfoldable pub IpAddr-discrete : Discrete IpAddr
unfolding ℕ_discrete
IpAddr-discrete = hlevel ℕ_discrete

abbrev pub from_secs : ℕ → ℕ
from_secs n = n * 1_000_000_000

-- `Duration::as_secs` rounds down.
abbrev pub as_secs : ℕ → ℕ
as_secs d = d / 1_000_000_000

-- The `ipnet` crate and the address parser, as an interface: the operations that the source calls.
pub record IpNets : Type 1 where
  pub IpNet : Type 0
  pub parse_net : List ℕ → Option IpNet
  pub parse_addr : List ℕ → Option IpAddr
  pub from_addr : IpAddr → IpNet
  pub contains : IpNet → IpAddr → Bool
  pub network : IpNet → IpAddr
  pub aggregate : List IpNet → List IpNet
  pub display : IpNet → List ℕ
