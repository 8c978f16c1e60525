-- ===== src/Udp.antt =====
-- trihard/sgx_socket: the wrappers by which an enclave calls the sockets of the OS, and the addresses that
-- they pass. What the OS returns, and whether the call leaves the enclave, are arguments; `inet_addr` and
-- `inet_ntoa` of the C library are the fields of `Inet`.
pub mod Addresses
use Prim.Native.String.{String}
use tri_ha_rd_higher_resilie.Base.{
  ℕ, ◌+◌, ◌*◌, ◌/◌, ◌%◌, Bool, ◌||◌, List, Option, none, some, ◌==◌, if◌then◌else◌,
}
use tri_ha_rd_higher_resilie.Base.Int.{ℤ, pos, negsuc}

pub record Inet : Type 0 where
  pub inet_addr : String → ℕ
  pub inet_ntoa : ℕ → String

-- `sockaddr_in`: the port in the order of the network, and the address.
pub record SockAddr : Type 0 where
  pub sin_port : ℕ
  pub sin_addr : ℕ

-- `htons` on a processor that stores the low byte first, and `ntohs`, on an `uint16_t`.
unfoldable pub htons : ℕ → ℕ
htons n = n % 256 * 256 + n / 256

-- `u_sendto`: the address that the datagram is sent to. The `int` is cut to 16 bits.
unfoldable pub u_sendto : Inet → String → ℕ → SockAddr
unfolding htons
u_sendto inet ip port = record { sin_port = htons (port % 65536); sin_addr = inet.inet_addr ip }

abbrev sender : SockAddr → SockAddr → ℤ → SockAddr
sender local from (pos n) = from
sender local from (negsuc n) = local

-- `u_recvfrom`: what `ip` and `port` are set to. When `recvfrom` fails, the address is what the local held.
unfoldable pub u_recvfrom : Inet → SockAddr → SockAddr → ℤ → ℤ × String × ℕ
unfolding htons
u_recvfrom inet local from result =
    let addr = sender local from result in
    (result, inet.inet_ntoa addr.sin_addr, htons addr.sin_port)

-- A wrapper inside the enclave: the result of the ocall, or -1 if the ocall fails.
abbrev pub wrapped : Option ℤ → ℤ
wrapped none = negsuc 0
wrapped (some result) = result

-- `setsockopt`: no option, or one of no length, is refused before the ocall.
abbrev pub setsockopt : Bool → ℕ → Option ℤ → ℤ
setsockopt is_null optlen called = if is_null || optlen == 0 then negsuc 0 else wrapped called

-- `recvfrom`: if the ocall fails, `ip` and `port` keep what they held.
abbrev pub recvfrom : String → ℕ → Option (ℤ × String × ℕ) → ℤ × String × ℕ
recvfrom ip port none = (negsuc 0, ip, port)
recvfrom ip port (some read) = read
