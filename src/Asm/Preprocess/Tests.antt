-- ===== src/Asm/Preprocess/Tests.antt =====
-- A line with blanks and a comment through assembler/preprocessor.c.
use aru_xi.Base.{◌≡◌, refl}
use aru_xi.Base.Text.{Text, codes}
use aru_xi.Asm.Instructions.Memory.{skip_blanks}
use aru_xi.Asm.Preprocess.{preprocess}
use aru_xi.Asm.Preprocess.Cleaned.{ended, something, cleaned, preprocess-cleaned}

abbrev body : Text
body = codes "  hlt \t% x"

preprocess-cleaned_example : preprocess (ended body) ≡ something (cleaned body)
preprocess-cleaned_example =
    preprocess-cleaned body
      (refl, (refl, (refl, (refl, (refl, (refl, (refl, (refl, (refl, (refl, tt))))))))))

-- What is left of it.
hlt : something (cleaned body) ≡ something (codes "hlt")
unfolding skip_blanks
hlt = refl
