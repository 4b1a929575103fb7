-- ===== src/Gateway/Registry/Documentation.antt =====
-- What packages/traffic-gateway/src/synthetic-ip.ts accepts as a visitor's address.
use testy_mc_testface.Prelude.{
  ◌≡◌, refl, ◌⊎◌, ℕ, ◌≤◌, String, true, List, [], ◌∷◌, Option, some, arith, eq_iff, split, ◌+++◌,
}
use testy_mc_testface.Gateway.Address.{
  Platform, octet, is_documentation_prefix, prefix, reserved_octets, four_octets,
}

-- A text of four parts between dots, each of which `Number` reads as at most 255, and the first three
-- of which are then written as the first three of RFC 5737's blocks.
pub record IsReadAsDocumentation (p : Platform) (ip : String) : Type 0 where
  pub a : String
  pub b : String
  pub c : String
  pub d : String
  pub m : ℕ
  pub n : ℕ
  pub k : ℕ
  pub l : ℕ
  pub parts : split 46 ip ≡ a ∷ b ∷ c ∷ d ∷ []
  pub numbers :
      (p.number a ≡ some m) × (p.number b ≡ some n) × (p.number c ≡ some k) × (p.number d ≡ some l)
  pub octets : (m ≤ 255) × (n ≤ 255) × (k ≤ 255) × (l ≤ 255)
  pub block :
      let written = p.decimal m +++ "." +++ p.decimal n +++ "." +++ p.decimal k in
      (written ≡ "192.0.2") ⊎ ((written ≡ "198.51.100") ⊎ (written ≡ "203.0.113"))

octet-some :
    (p : Platform) (text : String) (n : ℕ)
    → octet p text ≡ some n
    → (p.number text ≡ some n) × (n ≤ 255)
octet-some p text n h = ground (arith, h)

documentation-cases :
    (text : String)
    → is_documentation_prefix text ≡ true
    → (text ≡ "192.0.2") ⊎ ((text ≡ "198.51.100") ⊎ (text ≡ "203.0.113"))
documentation-cases text h =
    ground (arith, h, eq_iff text "192.0.2", eq_iff text "198.51.100", eq_iff text "203.0.113")

reserved_octets-some :
    (p : Platform) (a b c d : Option ℕ)
    → reserved_octets p a b c d ≡ true
    → (m n k l : ℕ) × (a ≡ some m)
      × (b ≡ some n)
      × (c ≡ some k)
      × (d ≡ some l)
      × (is_documentation_prefix (prefix p m n k) ≡ true)
unfolding reserved_octets
reserved_octets-some p (some m) (some n) (some k) (some l) h =
    (m, n, k, l, refl, refl, refl, refl, h)
reserved_octets-some p a b c d h = cc

pub four_octets-some :
    (p : Platform) (ip : String) (parts : List String)
    → split 46 ip ≡ parts
    → four_octets p parts ≡ true
    → IsReadAsDocumentation p ip
unfolding four_octets
four_octets-some p ip (a ∷ b ∷ c ∷ d ∷ []) e h =
    let (m, n, k, l, is_m, is_n, is_k, is_l, shown) =
      reserved_octets-some p (octet p a) (octet p b) (octet p c) (octet p d) h in
    let (read_m, small_m) = octet-some p a m is_m in
    let (read_n, small_n) = octet-some p b n is_n in
    let (read_k, small_k) = octet-some p c k is_k in
    let (read_l, small_l) = octet-some p d l is_l in
    record {
      a = a;
      b = b;
      c = c;
      d = d;
      m = m;
      n = n;
      k = k;
      l = l;
      parts = e;
      numbers = (read_m, read_n, read_k, read_l);
      octets = (small_m, small_n, small_k, small_l);
      block = documentation-cases (prefix p m n k) shown;
    }
four_octets-some p ip parts e h = cc
