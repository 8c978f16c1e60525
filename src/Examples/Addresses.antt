-- ===== src/Examples/Addresses.antt =====
-- Witnesses for the addresses that the wrappers of the sockets pass.
use Prim.Native.Char.{code}
use Prim.Native.String.{String}
use tri_ha_rd_higher_resilie.Base.{
  ℕ, zero, suc, ◌+◌, ◌*◌, ◌/◌, ◌%◌, ◌^◌, ◌<◌, ◌≡◌, refl, inl, inr, some, ◌==◌, Bool-cases, arith,
  if◌then◌else◌,
}
use tri_ha_rd_higher_resilie.Base.Int.{pos}
use tri_ha_rd_higher_resilie.Udp.{Inet, SockAddr, u_sendto, u_recvfrom, recvfrom, htons}
use tri_ha_rd_higher_resilie.Udp.Addresses.{Converts, u_sendto-u_recvfrom}

-- A text for an address, the lowest bit first.
abbrev text_of : ℕ → ℕ → String
text_of zero addr = ""
text_of (suc fuel) addr =
    let more = text_of fuel (addr / 2) in
    if addr % 2 == 1 then String.◌∷◌ "1" more else String.◌∷◌ "0" more

abbrev address_of : String → ℕ
address_of String.[] = 0
address_of (String.◌∷◌ c s) = (if code c == b'1' then 1 else 0) + 2 * address_of s

address_of-text_of : (fuel addr : ℕ) → addr < 2 ^ fuel → address_of (text_of fuel addr) ≡ addr
address_of-text_of zero addr h = omega arith
address_of-text_of (suc fuel) addr h =
    let rest = address_of-text_of fuel (addr / 2) (omega arith) in
    elim (Bool-cases (addr % 2 == 1)) [
      | inl odd ↦ rw (odd, rest) (ground (arith, odd))
      | inr even ↦ rw (even, rest) (ground (arith, even))
    ]

abbrev inet : Inet
inet = record { inet_addr = address_of; inet_ntoa = text_of 32 }

inet-Converts : Converts inet
inet-Converts addr h = address_of-text_of 32 addr h

abbrev from : SockAddr
from = record { sin_port = 14640; sin_addr = 16777343 }

abbrev local : SockAddr
local = record { sin_port = 0; sin_addr = 0 }

u_sendto-u_recvfrom_example :
    let (result, from_ip, from_port) = recvfrom "" 0 (some (u_recvfrom inet local from (pos 91))) in
    (result ≡ pos 91) × (from_port < 65536) × (u_sendto inet from_ip from_port ≡ from)
u_sendto-u_recvfrom_example =
    u_sendto-u_recvfrom inet local from 91 0 "" inet-Converts (omega arith) (omega arith)

-- The port 12345, in the order of the network, is the port of `from`.
port_test : u_sendto inet (text_of 32 16777343) 12345 ≡ from
unfolding u_sendto htons
port_test = refl
