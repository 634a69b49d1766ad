-- ===== src/Shared/Signals/Words.antt =====
-- The interrupt words of shared/emSignal.c: which bits a call changes, and which calls a signal
-- accepts.
use aru_xi.Base.{
  ℕ, ◌-◌, ◌^◌, ◌<◌, Bool, true, false, not, ◌||◌, ◌==◌, ==_iff, ◌≡◌, ◌≢◌, refl, arith, none, some,
  all_below, all_below_sound, if◌then◌else◌, List, [], ◌∷◌,
}
use aru_xi.Base.Bits.{digit, digit-bit_or, digit-bit_and, digit-pow_self, digit-pow_ne}
use aru_xi.Shared.Signals.{
  Signal, sig_get, sig_set, sig_clr, enabled, set_signal, ack_signal, set_sys_signal,
  ack_sys_signal, sys_idx, setup_signals,
}

digit-lt : (a j : ℕ) → digit a j < 2
digit-lt a j = omega arith

pub sig_get-sig_set_self : (bits i : ℕ) → sig_get (sig_set bits i) i ≡ 1
unfolding sig_set
sig_get-sig_set_self bits i =
    omega (arith, digit-bit_or i bits (2 ^ i), digit-pow_self i, digit-lt bits i)

pub sig_get-sig_set_ne : (bits i j : ℕ) → i ≢ j → sig_get (sig_set bits i) j ≡ sig_get bits j
unfolding sig_set
sig_get-sig_set_ne bits i j ne = omega (arith, digit-bit_or j bits (2 ^ i), digit-pow_ne i j ne)

-- Two words that differ at most at bit `i`.
abbrev pub SameElsewhere : ℕ → ℕ → ℕ → Type 0
SameElsewhere i old new = (j : ℕ) → i ≢ j → sig_get new j ≡ sig_get old j

-- A set function without payload: where the signal is enabled it returns 1 and sets the interrupt
-- bit, which changes no other bit of the word and no other field; where it is not, it returns -1
-- and changes nothing.
pub set_signal_lem :
    (i : ℕ) (s : Signal)
    → (set_signal i s ≡ (
        if enabled i s
        then (record s { interrupts = sig_set s.interrupts i }, some 1)
        else (s, none)))
      × (sig_get (sig_set s.interrupts i) i ≡ 1)
      × SameElsewhere i s.interrupts (sig_set s.interrupts i)
unfolding set_signal
set_signal_lem i s = (
  rw (sig_get-sig_set_self s.interrupts i),
  sig_get-sig_set_self s.interrupts i,
  λ j ne. sig_get-sig_set_ne s.interrupts i j ne,
)

-- An acknowledgement without payload, which works on `ackMask` in the same way and leaves the
-- interrupt itself set.
pub ack_signal_lem :
    (i : ℕ) (s : Signal)
    → (ack_signal i s ≡ (
        if enabled i s then (record s { ack_mask = sig_set s.ack_mask i }, some 1) else (s, none)))
      × (sig_get (sig_set s.ack_mask i) i ≡ 1)
      × SameElsewhere i s.ack_mask (sig_set s.ack_mask i)
unfolding ack_signal
ack_signal_lem i s = (
  rw (sig_get-sig_set_self s.ack_mask i),
  sig_get-sig_set_self s.ack_mask i,
  λ j ne. sig_get-sig_set_ne s.ack_mask i j ne,
)

clr_table : all_below 32 (λ j. digit (2 ^ 32 - 1 - 2 ^ 14) j == (if j == 14 then 0 else 1)) ≡ true
unfolding all_below
clr_table = refl

sig_get-sig_clr_sys :
    (bits j : ℕ)
    → j < 32
    → sig_get (sig_clr bits sys_idx) j ≡ (if j == 14 then 0 else sig_get bits j)
unfolding sig_clr
sig_get-sig_clr_sys bits j lt =
    let mask = (==_iff _ _).0 (
      all_below_sound 32 (λ j. digit (2 ^ 32 - 1 - 2 ^ 14) j == (if j == 14 then 0 else 1)) j
        clr_table lt) in
    ground (arith, digit-bit_and j bits (2 ^ 32 - 1 - 2 ^ 14), digit-lt bits j)

-- A system call's signal and its acknowledgement, on a signal that enables it: the payload bit is
-- set by the first and cleared by the second, the other payload bits are kept throughout, the
-- kernel's pointer is handed over, and in the end both the interrupt and its acknowledgement are
-- set.
pub ack_sys_signal-set_sys_signal :
    (s : Signal) (ptr : ℕ)
    → enabled sys_idx s ≡ true
    → let sent = (set_sys_signal s ptr).0 in
      let done = (ack_sys_signal sent).0 in
      (sent.word0 ≡ ptr)
      × (sig_get sent.payload_valid sys_idx ≡ 1)
      × ((j : ℕ) → j < 32 → sys_idx ≢ j → sig_get done.payload_valid j ≡ sig_get s.payload_valid j)
      × (sig_get done.payload_valid sys_idx ≡ 0)
      × (sig_get done.interrupts sys_idx ≡ 1)
      × (sig_get done.ack_mask sys_idx ≡ 1)
unfolding set_sys_signal ack_sys_signal
ack_sys_signal-set_sys_signal s ptr on =
    let sent = sig_set s.payload_valid sys_idx in
    rw (on, on)
      (
        refl,
        sig_get-sig_set_self s.payload_valid sys_idx,
        (λ j lt ne.
            let kept = sig_get-sig_set_ne s.payload_valid sys_idx j ne in
            ground (arith, sig_get-sig_clr_sys sent j)),
        sig_get-sig_clr_sys sent sys_idx (omega arith),
        sig_get-sig_set_self s.interrupts sys_idx,
        sig_get-sig_set_self s.ack_mask sys_idx,
      )

abbrev pub among : ℕ → List ℕ → Bool
among j [] = false
among j (i ∷ is) = j == i || among j is

same : Bool → Bool → Bool
same true b = b
same false b = not b

same→eq : (a b : Bool) → same a b ≡ true → a ≡ b
unfolding same
same→eq true b h = ground arith
same→eq false b h = ground arith

agree :
    (f : ℕ → Bool) (is : List ℕ)
    → all_below 32 (λ j. same (f j) (among j is)) ≡ true
    → (j : ℕ) → j < 32
    → f j ≡ among j is
agree f is table j lt = same→eq _ _ (all_below_sound 32 (λ j. same (f j) (among j is)) j table lt)

-- After `setupSignals` each of the four signals accepts the calls of its own indices and of no
-- other: shutdown, fault and ready go over the universal signal, load and io between the emulator
-- and the shell, save and sys between the emulator and the CPU, and error, exit, kill and exec
-- between the shell and the CPU.
pub enabled-setup_signals :
    (j : ℕ)
    → j < 32
    → (enabled j setup_signals.universal ≡ among j (31 ∷ 30 ∷ 29 ∷ []))
      × (enabled j setup_signals.emu_shell ≡ among j (8 ∷ 7 ∷ []))
      × (enabled j setup_signals.emu_cpu ≡ among j (14 ∷ 12 ∷ []))
      × (enabled j setup_signals.shell_cpu ≡ among j (3 ∷ 2 ∷ 1 ∷ 0 ∷ []))
unfolding setup_signals all_below same
enabled-setup_signals j lt = (
  agree (λ j. enabled j setup_signals.universal) (31 ∷ 30 ∷ 29 ∷ []) refl j lt,
  agree (λ j. enabled j setup_signals.emu_shell) (8 ∷ 7 ∷ []) refl j lt,
  agree (λ j. enabled j setup_signals.emu_cpu) (14 ∷ 12 ∷ []) refl j lt,
  agree (λ j. enabled j setup_signals.shell_cpu) (3 ∷ 2 ∷ 1 ∷ 0 ∷ []) refl j lt,
)
