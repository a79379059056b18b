-- ===== src/Network/Ipv6.antt =====
-- Public IPv6 addresses, and the choice among the answers of a resolver.
use eoduksini.Base.{
  ℕ, String, Bool, false, not, ◌&&◌, ◌||◌, Option, none, some, List, [], ◌∷◌, ◌++◌, map, leb, ltb,
  any, all, length, ◌==◌, if◌then◌else◌, ◌+◌, ◌*◌, ◌-◌, ◌/◌, ◌%◌, ◌^◌, zero, suc,
}
use eoduksini.Base.Path.{has_code}
use eoduksini.Base.Text.{codes}
use eoduksini.Base.Split.{split_on}
use eoduksini.Network.{parse_ipv4, is_public_ipv4}

lower : ℕ → ℕ
lower c = if leb 0x41 c && leb c 0x5A then c + 0x20 else c

-- At how many places `::` stands.
double_colons : List ℕ → ℕ
double_colons [] = 0
double_colons (c ∷ []) = 0
double_colons (c ∷ d ∷ l) =
    let rest = double_colons (d ∷ l) in if c == 0x3A && d == 0x3A then suc rest else rest

-- What stands before the last colon, and what after it.
at_last_colon : List ℕ → Option (List ℕ × List ℕ)
at_last_colon [] = none
at_last_colon (c ∷ l) = elim (at_last_colon l) [
  | some (before, after) ↦ some (c ∷ before, after)
  | none ↦ if c == 0x3A then some ([], l) else none
]

hex_code : ℕ → ℕ
hex_code d = if ltb d 10 then 0x30 + d else 0x57 + d

drop_zeros : List ℕ → List ℕ
drop_zeros [] = []
drop_zeros (c ∷ []) = c ∷ []
drop_zeros (c ∷ d ∷ l) = let rest = drop_zeros (d ∷ l) in if c == 0x30 then rest else c ∷ d ∷ l

-- toString(16), below 2^16.
hex : ℕ → List ℕ
unfolding drop_zeros hex_code
hex n = drop_zeros (
    hex_code (n / 4096 % 16)
    ∷ hex_code (n / 256 % 16)
    ∷ hex_code (n / 16 % 16)
    ∷ hex_code (n % 16)
    ∷ [])

-- A dotted end is written as two groups.
undot : List ℕ → Option (List ℕ)
unfolding at_last_colon hex
undot l = if not (has_code 0x2E l) then some l else elim (at_last_colon l) [
  | none ↦ none
  | some (before, after) ↦ elim (parse_ipv4 after) [
    | none ↦ none
    | some v ↦ some (before ++ 0x3A ∷ hex (v / 65536) ++ 0x3A ∷ hex (v % 65536))
  ]
]

-- What stands before and after the first `::`.
at_double : List ℕ → Option (List ℕ × List ℕ)
at_double [] = none
at_double (c ∷ []) = none
at_double (c ∷ d ∷ l) =
    let rest = at_double (d ∷ l) in
    if c == 0x3A && d == 0x3A
    then some ([], l)
    else elim rest [ none ↦ none | some (before, after) ↦ some (c ∷ before, after) ]

groups_of : List ℕ → List (List ℕ)
groups_of [] = []
groups_of (c ∷ l) = split_on 0x3A (c ∷ l)

is_hex_digit : ℕ → Bool
is_hex_digit c = (leb 0x30 c && leb c 0x39) || (leb 0x61 c && leb c 0x66)

is_group : List ℕ → Bool
unfolding is_hex_digit
is_group p = leb 1 (length p) && leb (length p) 4 && all is_hex_digit p

hex_value : ℕ → List ℕ → ℕ
hex_value n [] = n
hex_value n (c ∷ l) = hex_value (16 * n + (if leb 0x61 c then c - 0x57 else c - 0x30)) l

total : ℕ → List (List ℕ) → ℕ
unfolding hex_value
total n [] = n
total n (p ∷ ps) = total (n * 65536 + hex_value 0 p) ps

zero_groups : ℕ → List (List ℕ)
zero_groups zero = []
zero_groups (suc n) = (0x30 ∷ []) ∷ zero_groups n

of_groups : List (List ℕ) → Option ℕ
unfolding is_group total
of_groups l = if all is_group l && length l == 8 then some (total 0 l) else none

of_normal : List ℕ → Option ℕ
unfolding at_double groups_of of_groups zero_groups
of_normal l = elim (at_double l) [
  | none ↦ of_groups (groups_of l)
  | some (before, after) ↦
      let left = groups_of before in
      let right = groups_of after in
      if leb 8 (length left + length right)
      then none
      else of_groups (left ++ zero_groups (8 - length left - length right) ++ right)
]

unfoldable pub parse_ipv6 : List ℕ → Option ℕ
unfolding lower double_colons undot of_normal
parse_ipv6 address =
    if has_code 0x25 address || leb 2 (double_colons address)
    then none
    else elim (undot (map lower address)) [ none ↦ none | some l ↦ of_normal l ]

-- The base is a constant of the source, and is read.
unfoldable pub ipv6_in_cidr : ℕ → String × ℕ → Bool
unfolding parse_ipv6
ipv6_in_cidr value (base, prefix_length) = elim (parse_ipv6 (codes base)) [
  | none ↦ false
  | some b ↦ value / 2 ^ (128 - prefix_length) == b / 2 ^ (128 - prefix_length)
]

abbrev pub blocked_global_ipv6_cidrs : List (String × ℕ)
blocked_global_ipv6_cidrs =
    ("2001::", 23)
    ∷ ("2001:0000::", 32)
    ∷ ("2001:0002::", 48)
    ∷ ("2001:0010::", 28)
    ∷ ("2001:0020::", 28)
    ∷ ("2001:0db8::", 32)
    ∷ ("2002::", 16)
    ∷ ("3fff::", 20)
    ∷ []

print_octet : ℕ → List ℕ
print_octet n =
    if ltb n 10
    then (0x30 + n) ∷ []
    else if ltb n 100
    then (0x30 + n / 10) ∷ (0x30 + n % 10) ∷ []
    else (0x30 + n / 100) ∷ (0x30 + n / 10 % 10) ∷ (0x30 + n % 10) ∷ []

dotted : ℕ → List ℕ
unfolding print_octet
dotted n =
    print_octet (n / 16777216 % 256)
    ++ 0x2E ∷ print_octet (n / 65536 % 256)
    ++ 0x2E ∷ print_octet (n / 256 % 256)
    ++ 0x2E ∷ print_octet (n % 256)

unfoldable pub is_public_ipv6 : List ℕ → Bool
unfolding parse_ipv6 ipv6_in_cidr dotted
is_public_ipv6 address = elim (parse_ipv6 address) [
  | none ↦ false
  | some value ↦
      if ipv6_in_cidr value ("::ffff:0:0", 96)
      then is_public_ipv4 (dotted (value % 4294967296))
      else if not (ipv6_in_cidr value ("2000::", 3))
      then false
      else not (any (ipv6_in_cidr value) blocked_global_ipv6_cidrs)
]

pub record Answer : Type 0 where
  pub address : List ℕ
  pub family : ℕ

-- `is_ip` is the family that the runtime sees in an address, 0 for none.
unfoldable pub is_public_address : (is_ip : List ℕ → ℕ) → Answer → Bool
unfolding is_public_ipv4 is_public_ipv6
is_public_address is_ip a =
    (a.family == 4 || a.family == 6)
    && is_ip a.address == a.family
    && (if a.family == 4 then is_public_ipv4 a.address else is_public_ipv6 a.address)

-- The first answer, if every answer is public; `none` is the rejection.
unfoldable pub select_public_address : (is_ip : List ℕ → ℕ) → List Answer → Option Answer
unfolding is_public_address
select_public_address is_ip [] = none
select_public_address is_ip (a ∷ l) = if all (is_public_address is_ip) (a ∷ l) then some a else none
