-- ===== src/Network.antt =====
-- Public network addresses (packages/engine-primitives/network-policy.mjs). An address is the codes
-- of its text; `isIP` is the runtime's, and a rejection is the only reason.
pub mod Ipv6
pub mod Samples
use eoduksini.Base.{
  ℕ, String, Bool, true, false, not, ◌&&◌, ◌||◌, Option, none, some, List, [], ◌∷◌, ◌++◌, map, leb,
  ltb, any, all, length, ◌==◌, if◌then◌else◌, ◌+◌, ◌*◌, ◌-◌, ◌/◌, ◌%◌, ◌^◌, zero, suc,
}
use eoduksini.Base.Path.{equal_codes, has_code, is_empty}
use eoduksini.Base.Split.{split_on}
use eoduksini.Base.Text.{codes}

abbrev dot : ℕ
dot = 0x2E

is_digit : ℕ → Bool
is_digit c = leb 0x30 c && leb c 0x39

decimal : ℕ → List ℕ → ℕ
decimal n [] = n
decimal n (c ∷ l) = decimal (10 * n + (c - 0x30)) l

-- /^(?:0|[1-9][0-9]{0,2})$/
is_octet_text : List ℕ → Bool
unfolding is_digit
is_octet_text [] = false
is_octet_text (c ∷ l) =
    (c == 0x30 && is_empty l) || (leb 0x31 c && leb c 0x39 && all is_digit l && leb (length l) 2)

octets : ℕ → List (List ℕ) → Option ℕ
unfolding is_octet_text decimal
octets n [] = some n
octets n (p ∷ ps) =
    let v = decimal 0 p in
    let rest = octets (n * 256 + v) ps in if is_octet_text p && leb v 255 then rest else none

unfoldable pub parse_ipv4 : List ℕ → Option ℕ
unfolding octets split_on
parse_ipv4 address =
    let parts = split_on dot address in if length parts == 4 then octets 0 parts else none

unfoldable pub ipv4_in_cidr : (value base prefix_length : ℕ) → Bool
ipv4_in_cidr value base prefix_length =
    value / 2 ^ (32 - prefix_length) == base / 2 ^ (32 - prefix_length)

abbrev pub blocked_ipv4_cidrs : List (String × ℕ)
blocked_ipv4_cidrs =
    ("0.0.0.0", 8)
    ∷ ("10.0.0.0", 8)
    ∷ ("100.64.0.0", 10)
    ∷ ("127.0.0.0", 8)
    ∷ ("169.254.0.0", 16)
    ∷ ("172.16.0.0", 12)
    ∷ ("192.0.0.0", 24)
    ∷ ("192.0.2.0", 24)
    ∷ ("192.88.99.0", 24)
    ∷ ("192.168.0.0", 16)
    ∷ ("198.18.0.0", 15)
    ∷ ("198.51.100.0", 24)
    ∷ ("203.0.113.0", 24)
    ∷ ("224.0.0.0", 4)
    ∷ ("240.0.0.0", 4)
    ∷ []

abbrev pub metadata_ipv4 : List String
metadata_ipv4 =
    "100.100.100.200" ∷ "168.63.129.16" ∷ "169.254.169.253" ∷ "169.254.169.254" ∷ "169.254.170.2"
    ∷ "169.254.170.23" ∷ []

in_ipv4_block : ℕ → String × ℕ → Bool
unfolding parse_ipv4 ipv4_in_cidr
in_ipv4_block value (base, prefix_length) = elim (parse_ipv4 (codes base)) [
  | none ↦ false
  | some b ↦ ipv4_in_cidr value b prefix_length
]

unfoldable pub is_public_ipv4 : List ℕ → Bool
unfolding parse_ipv4 in_ipv4_block equal_codes
is_public_ipv4 address = elim (parse_ipv4 address) [
  | none ↦ false
  | some value ↦
      not (any (λ m. equal_codes (codes m) address) metadata_ipv4)
      && not (any (in_ipv4_block value) blocked_ipv4_cidrs)
]
