-- ===== src/Security/Address.antt =====
-- security/url_safety.py: the addresses that a request must not reach. The text of an address and the
-- registries behind `is_private` and the like belong to the library `ipaddress`: parameters.
use Prim.Native.Nat.{◌^◌}
use scovant_core.Prelude.{
  ◌≡◌, refl, ℕ, ◌-◌, ◌*◌, ◌/◌, ◌+◌, Bool, true, false, ◌&&◌, ◌||◌, List, [], ◌∷◌, any, ◌==◌,
}

-- an address: its version (4 or 6) and its bits as a number
pub data Version : Type 0 where
  v4 v6 : Version

pub record Address : Type 0 where
  pub version : Version
  pub bits : ℕ

abbrev pub same_version : Version → Version → Bool
same_version Version.v4 Version.v4 = true
same_version Version.v6 Version.v6 = true
same_version _ _ = false

abbrev width : Version → ℕ
width Version.v4 = 32
width Version.v6 = 128

-- a network: its first address and the length of its prefix
pub record Network : Type 0 where
  pub base : Address
  pub prefix : ℕ

-- `addr in net`
abbrev pub in_network : Address → Network → Bool
in_network a n =
    let block = 2 ^ (width n.base.version - n.prefix) in
    same_version a.version n.base.version && a.bits / block == n.base.bits / block

-- `a.b.c.d/prefix`
abbrev net4 : ℕ → ℕ → ℕ → ℕ → ℕ → Network
net4 a b c d prefix = record {
  base = record { version = Version.v4; bits = ((a * 256 + b) * 256 + c) * 256 + d };
  prefix = prefix;
}

-- the network of a first group of 16 bits
abbrev net6 : ℕ → ℕ → Network
net6 group prefix = record {
  base = record { version = Version.v6; bits = group * 2 ^ 112 };
  prefix = prefix;
}

-- `_PRIVATE_NETWORKS`
abbrev pub private_networks : List Network
private_networks =
    net4 10 0 0 0 8
    ∷ net4 172 16 0 0 12
    ∷ net4 192 168 0 0 16
    ∷ net4 127 0 0 0 8
    ∷ net4 169 254 0 0 16
    ∷ net4 0 0 0 0 8
    ∷ net4 100 64 0 0 10
    ∷ record { base = record { version = Version.v6; bits = 1 }; prefix = 128 }
    ∷ net6 64512 7
    ∷ net6 65152 10
    ∷ []

-- `_ip_is_blocked`, for an address; `special` is the disjunction of the six properties of the library
unfoldable pub ip_is_blocked : (Address → Bool) → Address → Bool
ip_is_blocked special a = any (in_network a) private_networks || special a

link_local_test :
    ip_is_blocked (λ a. false) (record { version = Version.v4; bits = 2852039166 }) ≡ true
unfolding ip_is_blocked
link_local_test = refl

shared_space_test :
    ip_is_blocked (λ a. false) (record { version = Version.v4; bits = 1681915904 }) ≡ true
unfolding ip_is_blocked
shared_space_test = refl

public_test : ip_is_blocked (λ a. false) (record { version = Version.v4; bits = 134744072 }) ≡ false
unfolding ip_is_blocked
public_test = refl
