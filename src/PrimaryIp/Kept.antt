-- ===== src/PrimaryIp/Kept.antt =====
-- What one call of `primary_ip` leaves for the next.
use Prim.Native.String.{String}
use text.Mathlib.Text.{◌==◌ as str_eq}
use distance_vector_routing.Common.{◌≡◌, false, [], pos, Bool-cases, Option-cases, inl, inr}
use distance_vector_routing.Sockets.{connect_to}
use distance_vector_routing.PrimaryIp.{Answers, ask, from_name, primary_ip}

ask-kept :
    (system : Answers) (kept : String)
    → str_eq (ask system kept).answer "" ≡ false
    → (ask system kept).primary_ip_str ≡ (ask system kept).answer
unfolding ask from_name
ask-kept system kept h = elim (Bool-cases (connect_to system.found (pos 0)).success) [
  | inr refused ↦ rw refused
  | inl joined ↦
      elim (Option-cases (system.own_address (connect_to system.found (pos 0)).sock_fd)) [
        | inl nameless ↦ cc (rw (joined, nameless) at h)
        | inr (ip, name) ↦ rw (joined, name)
      ]
]

primary_ip-full :
    (system : Answers) (kept : String)
    → str_eq kept "" ≡ false
    → primary_ip system kept ≡ record { answer = kept; primary_ip_str = kept; closed = [] }
unfolding primary_ip
primary_ip-full system kept h = rw h

primary_ip-kept :
    (system : Answers) (kept : String)
    → str_eq (primary_ip system kept).answer "" ≡ false
    → (primary_ip system kept).primary_ip_str ≡ (primary_ip system kept).answer
unfolding primary_ip
primary_ip-kept system kept h = elim (Bool-cases (str_eq kept "")) [
  | inr full ↦ rw full
  | inl empty ↦ rw empty (ask-kept system kept (rw empty at h))
]

-- Once a call has returned some text, a later call returns the same whatever the system answers then,
-- and opens nothing.
pub primary_ip-twice :
    (system later : Answers) (kept : String)
    → str_eq (primary_ip system kept).answer "" ≡ false
    → primary_ip later (primary_ip system kept).primary_ip_str ≡ record {
      answer = (primary_ip system kept).answer;
      primary_ip_str = (primary_ip system kept).answer;
      closed = [];
    }
primary_ip-twice system later kept h =
    rw (primary_ip-kept system kept h) (primary_ip-full later (primary_ip system kept).answer h)
