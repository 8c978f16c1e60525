-- ===== src/Udp/Addresses.antt =====
-- The addresses of trihard/sgx_socket: who sent a datagram, and where an answer goes.
use Prim.Native.String.{String}
use tri_ha_rd_higher_resilie.Base.{ℕ, ◌%◌, ◌<◌, ◌≡◌, refl, ap, ap₂, ◌∙◌, arith, some}
use tri_ha_rd_higher_resilie.Base.Int.{pos}
use tri_ha_rd_higher_resilie.Udp.{Inet, SockAddr, htons, u_sendto, u_recvfrom, recvfrom}

htons_bound : (n : ℕ) → n < 65536 → htons n < 65536
unfolding htons
htons_bound n h = omega arith

htons_twice : (n : ℕ) → n < 65536 → htons (htons n) ≡ n
unfolding htons
htons_twice n h = omega arith

-- An address and its text, as the C library converts them.
abbrev pub Converts : Inet → Type 0
Converts inet = (addr : ℕ) → addr < 4294967296 → inet.inet_addr (inet.inet_ntoa addr) ≡ addr

sock_addr : ℕ → ℕ → SockAddr
sock_addr sin_port sin_addr = record { sin_port = sin_port; sin_addr = sin_addr }

-- The text and the port that a receiver is given, when a datagram was read, lead back to its sender: what is
-- sent to them goes to the address that the datagram came from.
pub u_sendto-u_recvfrom :
    (inet : Inet) (local from : SockAddr) (n port : ℕ) (ip : String)
    → Converts inet
    → from.sin_port < 65536
    → from.sin_addr < 4294967296
    → let (result, from_ip, from_port) =
        recvfrom ip port (some (u_recvfrom inet local from (pos n))) in
      (result ≡ pos n) × (from_port < 65536) × (u_sendto inet from_ip from_port ≡ from)
unfolding u_sendto u_recvfrom sock_addr
u_sendto-u_recvfrom inet local from n port ip converts hp ha =
    let bound = htons_bound from.sin_port hp in
    let same : htons (htons from.sin_port % 65536) ≡ from.sin_port =
      ap htons (omega (arith, bound)) ∙ htons_twice from.sin_port hp in
    (refl, bound, ap₂ sock_addr same (converts from.sin_addr ha))
