-- ===== src/Asm/Directives/Define.antt =====
-- `.set` and `.glob` of assembler/lexer-parser.c.
use aru_xi.Base.{ℕ, ◌-◌, ◌^◌, Bool, false, ◌==◌, bit_or, bit_and, Option, none, some, ◌++◌, ◌<<<◌}
use aru_xi.Base.Text.{Text}
use aru_xi.Asm.Operands.{Result, done, crashed, ◌>>=◌}
use aru_xi.Asm.Symbols.{
  SymbEntry, SymbolTable, expr, value, get_defined, init_symb_entry, add_symb_entry, get_symb_entry,
  change_entry,
}
use aru_xi.Asm.Encoder.{Evaluator}
use aru_xi.Asm.Strtok.{strtok}
use aru_xi.Asm.Directives.{blanks, comma, create_flags, expect, expect_end, unless}

-- `flags &= ~(0b11 << 4); flags |= section << 4`
abbrev pub put_section : ℕ → ℕ → ℕ
put_section flags section = bit_or (bit_and flags (2 ^ 32 - 1 - 48)) (section <<< 4)

-- What `setDirective` does to an entry that was only referenced before.
unfoldable pub defer_entry : Text → ℕ → SymbEntry → SymbEntry
defer_entry text section e = record e {
  content = expr text;
  flags = bit_or (bit_or (put_section (bit_or e.flags 128) section) 8) 1;
}

unfoldable pub settle_entry : ℕ → ℕ → SymbEntry → SymbEntry
settle_entry v section e = record e {
  content = value v;
  flags = bit_or (bit_or (put_section (bit_and e.flags (2 ^ 32 - 1 - 128)) section) 8) 1;
}

-- The four ways in which it ends: the entry that was found before the evaluation, and the value.
unfoldable pub put_symbol :
    Text → Text → ℕ → Option SymbEntry → Option ℕ × SymbolTable → SymbolTable
put_symbol symbol text section (some e) (none, table) =
    change_entry (defer_entry text section) table symbol
put_symbol symbol text section none (none, table) =
    add_symb_entry table (init_symb_entry symbol (some text) 0 (create_flags 1 section 1 0 0 1))
put_symbol symbol text section (some e) (some v, table) =
    change_entry (settle_entry v section) table symbol
put_symbol symbol text section none (some v, table) =
    add_symb_entry table (init_symb_entry symbol none v (create_flags 0 section 1 0 0 1))

abbrev pub is_set : Option SymbEntry → Bool
is_set none = false
is_set (some e) = get_defined e.flags == 1

-- `globDirective`'s change of an entry, and its new one.
unfoldable pub globalise : SymbEntry → SymbEntry
globalise e = record e { flags = bit_or (bit_or e.flags 4) 2 }

unfoldable pub put_global : Text → ℕ → Option SymbEntry → SymbolTable → SymbolTable
put_global symbol section (some e) table = change_entry globalise table symbol
put_global symbol section none table =
    add_symb_entry table (init_symb_entry symbol none 0 (create_flags 0 section 0 1 1 0))

-- `strcmp` and `strlen` read through the null pointer where no symbol is given.
unfoldable pub glob_symbol : Option Text → ℕ → SymbolTable → Result SymbolTable
glob_symbol none section table = crashed
glob_symbol (some symbol) section table =
    done (put_global symbol section (get_symb_entry table symbol) table)

unfoldable pub glob_directive : SymbolTable → Text → ℕ → Result SymbolTable
glob_directive table args active = do
  _ ← expect_end (strtok blanks (strtok blanks args).1)
  glob_symbol (strtok blanks args).0 active table

module _ (ev : Evaluator SymbolTable) where
  unfoldable pub set_directive : SymbolTable → Text → ℕ → Result SymbolTable
  set_directive table args active = do
    (symbol, args1) ← expect (strtok (blanks ++ comma) args)
    (text, args2) ← expect (strtok comma args1)
    _ ← expect_end (strtok comma args2)
    r ← unless (is_set (get_symb_entry table symbol)) (ev.eval text table)
    done (put_symbol symbol text active (get_symb_entry table symbol) r)
