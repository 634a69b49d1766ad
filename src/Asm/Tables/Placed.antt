-- ===== src/Asm/Tables/Placed.antt =====
-- Data entries of assembler/DataTable.c that follow one another in a section.
use aru_xi.Base.{ℕ, ◌+◌, ◌≡◌, sym, ◌∙◌, ap, List, [], ◌∷◌, ◌++◌, u32}
use aru_xi.Asm.Tables.{DataEntry}

-- From the address `start` on the entries stand one behind the other, and the next is at `lp`.
abbrev pub Placed : ℕ → List DataEntry → ℕ → Type 0
Placed start [] lp = start ≡ lp
Placed start (e ∷ es) lp = (e.addr ≡ start) × Placed (u32 (start + e.size)) es lp

pub Placed-append :
    (start : ℕ) (es : List DataEntry) (lp : ℕ) (e : DataEntry)
    → Placed start es lp
    → e.addr ≡ lp
    → Placed start (es ++ (e ∷ [])) (u32 (lp + e.size))
Placed-append start [] lp e h at = (at ∙ sym h, ap (λ (x : ℕ). u32 (x + e.size)) h)
Placed-append start (d ∷ es) lp e h at = (h.0, Placed-append (u32 (start + d.size)) es lp e h.1 at)
