-- ===== src/Relay/Socks.antt =====
-- src/zfgw_outport.cpp: how a SOCKS5 request is read, and the texts that it makes.
use libfgw.Prelude.{
  ℕ, zero, suc, ◌+◌, ◌*◌, ◌/◌, ◌%◌, ◌^◌, List, [], ◌∷◌, ◌++◌, ltb, ◌==◌, if◌then◌else◌, length,
  take, drop, get_or,
}

abbrev pub socks5_ver : ℕ
socks5_ver = 5

-- What the bytes of a request name: a host as text, a port, and the request's length.
pub data Target : Type 0 where
  partial : Target
  unsupported : Target
  target : List ℕ → ℕ → ℕ → Target

-- std::to_string and "%u", with at most `fuel` digits.
unfoldable pub decimal : ℕ → ℕ → List ℕ
decimal zero n = []
decimal (suc fuel) n =
    let high = decimal fuel (n / 10) in
    if ltb n 10 then (48 + n) ∷ [] else high ++ (48 + n % 10) ∷ []

-- A digit of "%02x".
unfoldable pub hex_digit : ℕ → ℕ
hex_digit n = if ltb n 10 then 48 + n else 87 + n

unfoldable pub hex_byte : ℕ → List ℕ
unfolding hex_digit
hex_byte b = hex_digit (b / 16 % 16) ∷ hex_digit (b % 16) ∷ []

-- "%u.%u.%u.%u" of the four bytes from `p` on.
unfoldable pub ipv4_text : List ℕ → ℕ → List ℕ
unfolding decimal
ipv4_text buf p =
    decimal 3 (get_or buf p 0)
    ++ 46 ∷ decimal 3 (get_or buf (p + 1) 0)
    ++ 46 ∷ decimal 3 (get_or buf (p + 2) 0)
    ++ 46 ∷ decimal 3 (get_or buf (p + 3) 0)

-- The groups of two bytes with colons between them, `n` groups from `p` on.
unfoldable pub ipv6_groups : ℕ → List ℕ → ℕ → List ℕ
unfolding hex_byte
ipv6_groups zero buf p = []
ipv6_groups (suc zero) buf p = hex_byte (get_or buf p 0) ++ hex_byte (get_or buf (p + 1) 0)
ipv6_groups (suc (suc n)) buf p =
    hex_byte (get_or buf p 0)
    ++ (hex_byte (get_or buf (p + 1) 0) ++ 58 ∷ ipv6_groups (suc n) buf (p + 2))

unfoldable pub port_at : List ℕ → ℕ → ℕ
port_at buf p = get_or buf p 0 * 2 ^ 8 + get_or buf (p + 1) 0

-- The address of a request that has its first five bytes, by its type.
unfoldable pub parse_target : List ℕ → Target
unfolding ipv4_text ipv6_groups port_at
parse_target buf =
    let atyp = get_or buf 3 0 in
    let dlen = get_or buf 4 0 in
    if atyp == 1
    then (if ltb (length buf) 10 then partial else target (ipv4_text buf 4) (port_at buf 8) 10)
    else if atyp == 3
    then (if ltb (length buf) (4 + 1 + dlen + 2)
        then partial
        else target (take dlen (drop 5 buf)) (port_at buf (5 + dlen)) (4 + 1 + dlen + 2))
    else if atyp == 4
    then (if ltb (length buf) 22 then partial else target (ipv6_groups 8 buf 4) (port_at buf 20) 22)
    else unsupported

-- host + ":" + std::to_string(port)
unfoldable pub target_text : List ℕ → ℕ → List ℕ
unfolding decimal
target_text host port = host ++ 58 ∷ decimal 5 port
