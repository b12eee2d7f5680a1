-- ===== src/Tests/Net.antt =====
-- A concrete package of addresses: four checked bytes each.
use mathlib.Core.HLevel.{Σ_prop_path}
use egressd.Prelude.{
  ℕ, ◌/◌, ◌%◌, ◌≡◌, refl, ◌↔◌, Bool, true, false, ◌&&◌, ◌||◌, none, some, List, [], ◌∷◌, arith, ltb,
  leb, if◌then◌else◌, ◌==◌, nat_comparable, string_comparable, length,
}
use egressd.Net.{Quad, IsQuad, NetAddr, IpPort, to_ip_int32, ip_from_int32}
use egressd.Net.Ip32.{ip_from_int32-to_ip_int32}

abbrev in_range : Quad → Bool
in_range q = ltb q.b0 256 && ltb q.b1 256 && ltb q.b2 256 && ltb q.b3 256

pub in_range-IsQuad : (q : Quad) → in_range q ≡ true → IsQuad q
in_range-IsQuad q h = ground arith

IsQuad-in_range : (q : Quad) → IsQuad q → in_range q ≡ true
IsQuad-in_range q h = ground arith

abbrev pub Address : Type 0
Address = (q : Quad) × (in_range q ≡ true)

abbrev cut : Quad → Quad
cut q = record { b0 = q.b0 % 256; b1 = q.b1 % 256; b2 = q.b2 % 256; b3 = q.b3 % 256 }

pub cut-in_range : (q : Quad) → in_range (cut q) ≡ true
cut-in_range q = ground arith

pub cut_lem : (q : Quad) → IsQuad q → cut q ≡ q
cut_lem q h = ground arith

Bool-set : IsSet Bool
Bool-set = hlevel

abbrev pub address : Quad → Address
address q = (cut q, cut-in_range q)

abbrev same : Address → Address → Bool
same a b = a.0.b0 == b.0.b0 && a.0.b1 == b.0.b1 && a.0.b2 == b.0.b2 && a.0.b3 == b.0.b3

same-quad :
    (p q : Quad) → (p.b0 == q.b0 && p.b1 == q.b1 && p.b2 == q.b2 && p.b3 == q.b3) ≡ true → p ≡ q
same-quad p q h = ground arith

same_refl : (q : Quad) → (q.b0 == q.b0 && q.b1 == q.b1 && q.b2 == q.b2 && q.b3 == q.b3) ≡ true
same_refl q = ground arith

pub address_eq : (a b : Address) → a.0 ≡ b.0 → a ≡ b
address_eq a b h = Σ_prop_path (λ q. Bool-set (in_range q) true) h

pub same_iff : (a b : Address) → (same a b ≡ true) ↔ (a ≡ b)
same_iff a b = (λ h. address_eq a b (same-quad a.0 b.0 h), λ e. rw e (same_refl b.0))

-- The private blocks 10.0.0.0/8, 172.16.0.0/12 and 192.168.0.0/16.
abbrev private_block : Quad → Bool
private_block q = q.b0 == 10 || (q.b0 == 172 && q.b1 / 16 == 1) || (q.b0 == 192 && q.b1 == 168)

abbrev pub quad_of : List ℕ → Quad
quad_of (b0 ∷ b1 ∷ b2 ∷ b3 ∷ []) = record { b0 = b0; b1 = b1; b2 = b2; b3 = b3 }
quad_of other = record { b0 = 0; b1 = 0; b2 = 0; b3 = 0 }

abbrev pub test_net : NetAddr
test_net = record {
  IP = Address;
  ip_eq = record { same = same; same_iff = same_iff };
  as4 = λ a. a.0;
  ipv4 = address;
  to_string = λ a. if private_block a.0 then "10.0.0.1" else "8.8.8.8";
  parse_ip = λ s. some (address (record { b0 = 10; b1 = 0; b2 = 0; b3 = 1 }));
  from_std_ip = λ b. if length b == 4 then some (address (quad_of b)) else none;
  is_private = λ a. private_block a.0;
  is_loopback = λ a. a.0.b0 == 127;
  is_multicast = λ a. leb 224 a.0.b0 && leb a.0.b0 239;
  is_link_local_unicast = λ a. a.0.b0 == 169 && a.0.b1 == 254;
  is_link_local_multicast = λ a. a.0.b0 == 224 && a.0.b1 == 0 && a.0.b2 == 0;
  is_interface_local_multicast = λ a. false;
  as4-IsQuad = λ a. in_range-IsQuad a.0 a.1;
  as4-ipv4 = λ q h. cut_lem q h;
  ipv4-as4 = λ a. address_eq (address a.0) a (cut_lem a.0 (in_range-IsQuad a.0 a.1));
}

abbrev pub pod_ip : Address
pod_ip = address (record { b0 = 10; b1 = 0; b2 = 0; b3 = 7 })

abbrev pub public_ip : Address
public_ip = address (record { b0 = 8; b1 = 8; b2 = 4; b3 = 4 })

abbrev pub at_port : Address → ℕ → IpPort Address
at_port ip port = record { ip = ip; port = port }

ip_from_int32-to_ip_int32_example :
    ip_from_int32 test_net (to_ip_int32 test_net public_ip) ≡ public_ip
ip_from_int32-to_ip_int32_example = ip_from_int32-to_ip_int32 test_net public_ip

public_ip_number : to_ip_int32 test_net public_ip ≡ 134743044
unfolding to_ip_int32
public_ip_number = refl
