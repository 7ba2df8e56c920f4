-- ===== src/PrimaryIp.antt =====
-- `primary_ip` of src/Util.cpp, with the text that it keeps.
pub mod Kept
mod Tests
use Prim.Native.String.{String}
use text.Mathlib.Text.{◌==◌ as str_eq}
use distance_vector_routing.Common.{
  ℤ, pos, is_zero, Bool, true, false, List, [], ◌∷◌, Option, none, some, if◌then◌else◌,
}
use distance_vector_routing.Sockets.{Attempt, Opened, connect_to}

-- What the system answers: the addresses that `getaddrinfo` finds, and the text that `get_ip` makes of
-- the address that `getsockname` writes, `none` where it fails.
pub record Answers : Type 0 where
  pub found : Option (List Attempt)
  pub own_address : ℤ → Option String

-- The value that is returned, `primary_ip_str` afterwards, and the descriptors that were closed, the
-- last one first.
pub record Asked : Type 0 where
  pub answer : String
  pub primary_ip_str : String
  pub closed : List ℤ

-- The descriptor 0 is not closed.
close_nonzero : ℤ → List ℤ → List ℤ
close_nonzero fd closed = if is_zero fd then closed else fd ∷ closed

from_name : String → Opened → Option String → Asked
unfolding close_nonzero
from_name kept opened none = record { answer = ""; primary_ip_str = kept; closed = opened.closed }
from_name kept opened (some ip) = record {
  answer = ip;
  primary_ip_str = ip;
  closed = close_nonzero opened.sock_fd opened.closed;
}

ask : Answers → String → Asked
unfolding from_name
ask system kept =
    let opened = connect_to system.found (pos 0) in
    let named = from_name kept opened (system.own_address opened.sock_fd) in
    if opened.success
    then named
    else record { answer = kept; primary_ip_str = kept; closed = opened.closed }

unfoldable pub primary_ip : Answers → String → Asked
unfolding ask
primary_ip system primary_ip_str =
    let asked = ask system primary_ip_str in
    if str_eq primary_ip_str ""
    then asked
    else record { answer = primary_ip_str; primary_ip_str = primary_ip_str; closed = [] }
