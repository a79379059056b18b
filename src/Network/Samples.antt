-- ===== src/Network/Samples.antt =====
-- Addresses of either kind.
use eoduksini.Base.{◌≡◌, refl, true, false}
use eoduksini.Base.Text.{codes}
use eoduksini.Base.Split.{split_on}
use eoduksini.Network.{is_public_ipv4, parse_ipv4, ipv4_in_cidr}
use eoduksini.Network.Ipv6.{is_public_ipv6, parse_ipv6, ipv6_in_cidr}

dns_is_public : is_public_ipv4 (codes "8.8.8.8") ≡ true
unfolding is_public_ipv4 parse_ipv4 split_on ipv4_in_cidr
dns_is_public = refl

private_is_blocked : is_public_ipv4 (codes "172.31.0.1") ≡ false
unfolding is_public_ipv4 parse_ipv4 split_on ipv4_in_cidr
private_is_blocked = refl

mapped_loopback_is_blocked : is_public_ipv6 (codes "::FFFF:127.0.0.1") ≡ false
unfolding is_public_ipv6 parse_ipv6 ipv6_in_cidr is_public_ipv4 parse_ipv4 split_on ipv4_in_cidr
mapped_loopback_is_blocked = refl

global_is_public : is_public_ipv6 (codes "2606:4700::1111") ≡ true
unfolding is_public_ipv6 parse_ipv6 ipv6_in_cidr parse_ipv4 split_on
global_is_public = refl
