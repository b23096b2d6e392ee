-- ===== src/Utf8/Grammar.antt =====
-- The grammar of well-formed UTF-8 (RFC 3629, section 4), independent of the automaton.
use wslay.Prelude.{ℕ, ◌≤◌, ◌⊎◌, ◌≡◌, List, [], ◌∷◌}

-- `lo <= b <= hi`
abbrev pub In : ℕ → ℕ → ℕ → Type 0
In lo hi b = (lo ≤ b) × (b ≤ hi)

-- UTF8-tail
abbrev pub IsTail : ℕ → Type 0
IsTail = In 0x80 0xbf

-- The first two bytes of UTF8-3: no overlong forms, no surrogates.
abbrev pub IsLead3 : ℕ → ℕ → Type 0
IsLead3 b c =
    ((b ≡ 0xe0) × In 0xa0 0xbf c)
    ⊎ (In 0xe1 0xec b × IsTail c)
    ⊎ ((b ≡ 0xed) × In 0x80 0x9f c)
    ⊎ (In 0xee 0xef b × IsTail c)

-- The first two bytes of UTF8-4: no overlong forms, nothing above U+10FFFF.
abbrev pub IsLead4 : ℕ → ℕ → Type 0
IsLead4 b c =
    ((b ≡ 0xf0) × In 0x90 0xbf c) ⊎ (In 0xf1 0xf3 b × IsTail c) ⊎ ((b ≡ 0xf4) × In 0x80 0x8f c)

-- UTF8-octets
pub data IsUtf8 : List ℕ → Type 0 where
  end : IsUtf8 []
  one : {b : ℕ} {r : List ℕ} → b ≤ 0x7f → IsUtf8 r → IsUtf8 (b ∷ r)
  two : {b c : ℕ} {r : List ℕ} → In 0xc2 0xdf b → IsTail c → IsUtf8 r → IsUtf8 (b ∷ c ∷ r)
  three : {b c d : ℕ} {r : List ℕ} → IsLead3 b c → IsTail d → IsUtf8 r → IsUtf8 (b ∷ c ∷ d ∷ r)
  four :
      {b c d e : ℕ} {r : List ℕ}
      → IsLead4 b c
      → IsTail d
      → IsTail e
      → IsUtf8 r
      → IsUtf8 (b ∷ c ∷ d ∷ e ∷ r)
