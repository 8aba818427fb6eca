-- ===== src/Config/Handlers/Entries.antt =====
-- Properties of the entries of the handler map: kept by registration, used by lookup, and had by
-- every default handler.
use Prim.Native.String.{String}
use mathlib.Core.List.{foldl}
use arcraven_ugv_core.Common.{
  ℕ, ◌≡◌, refl, inl, inr, Bool, true, not, ◌&&◌, List, [], ◌∷◌, none, some, ◌==◌, arith, All,
  All-append, map, Bool-cases,
}
use arcraven_ugv_core.Models.UgvCommand.{UgvCommand}
use arcraven_ugv_core.Models.RejectReason.{RejectReason}
use arcraven_ugv_core.Command.Types.{CommandEnvelope}
use arcraven_ugv_core.Command.Router.{
  CommandHandler, empty, callable, CommandRouter, key, assign, find, register_handler, handler_of,
}
use arcraven_ugv_core.Config.Vehicle.{Vehicle}
use arcraven_ugv_core.Config.Handlers.{
  written_handlers, stub_handler, stub_labels, default_handlers, register_pair,
  register_default_command_handlers, stub,
}
use arcraven_ugv_core.Config.Handlers.Answers.{
  Behaves, is_ending, is_emergency, is_stop, stub-Behaves, emergency_stop-Behaves, shutdown-Behaves,
  stop-Behaves, wait-Behaves, reboot-Behaves, signal-Behaves,
}

module _ (E : ℕ × CommandHandler Vehicle → Type 0) where
  assign-All :
      (k : ℕ) (h : CommandHandler Vehicle) (m : List (ℕ × CommandHandler Vehicle))
      → E (k, h)
      → All E m
      → All E (assign k h m)
  unfolding assign
  assign-All k h [] p q = (p, tt)
  assign-All k h ((j, old) ∷ m) p (pj, q) = elim (Bool-cases (j == k)) [
    | inl hit ↦ rw hit (p, q)
    | inr miss ↦ rw miss (pj, assign-All k h m p q)
  ]

  registers-All :
      (hs : List (UgvCommand × CommandHandler Vehicle)) (r : CommandRouter Vehicle)
      → All (λ p. E (key p.0, p.1)) hs
      → All E r.handlers
      → All E (foldl register_pair r hs).handlers
  unfolding register_handler
  registers-All [] r p q = q
  registers-All ((cmd, h) ∷ hs) r (p, ps) q =
      registers-All hs (register_pair r (cmd, h)) ps (assign-All (key cmd) h r.handlers p q)

  -- A property of handlers that the entries for `k` have, and the empty handler.
  find-All :
      (P : CommandHandler Vehicle → Type 0) (k : ℕ)
      → P empty
      → ((j : ℕ) (h : CommandHandler Vehicle) → (j == k) ≡ true → E (j, h) → P h)
      → (m : List (ℕ × CommandHandler Vehicle)) → All E m
      → P (elim (find k m) [ none ↦ empty | some h ↦ h ])
  unfolding find
  find-All P k e f [] q = e
  find-All P k e f ((j, h) ∷ m) (p, q) = elim (Bool-cases (j == k)) [
    | inl hit ↦ rw hit (f j h hit p)
    | inr miss ↦ rw miss (find-All P k e f m q)
  ]

  pub handler_of-All :
      (P : CommandHandler Vehicle → Type 0) (cmd : UgvCommand)
      → P empty
      → ((j : ℕ) (h : CommandHandler Vehicle) → (j == key cmd) ≡ true → E (j, h) → P h)
      → (m : List (ℕ × CommandHandler Vehicle)) → All E m
      → P (handler_of cmd m)
  unfolding handler_of
  handler_of-All P cmd e f m q = find-All P (key cmd) e f m q

-- An entry whose handler does what its command is to do.
abbrev pub BehavesPair : UgvCommand × CommandHandler Vehicle → Type 0
BehavesPair (cmd, empty) = ⊥
BehavesPair (cmd, callable f) = (c : CommandEnvelope) (v : Vehicle) → Behaves cmd f c v

abbrev is_plain : UgvCommand → Bool
is_plain cmd = not (is_ending cmd) && (not (is_emergency cmd) && not (is_stop cmd))

plain_Behaves :
    (cmd : UgvCommand) (label : String)
    → is_plain cmd ≡ true
    → BehavesPair (cmd, callable (stub label))
plain_Behaves cmd label e c v =
    stub-Behaves c v cmd label (ground (arith, e), ground (arith, e), ground (arith, e))

written_handlers-Behave : (s : RejectReason) → All BehavesPair (written_handlers s)
unfolding written_handlers
written_handlers-Behave s = (
  emergency_stop-Behaves,
  (
    shutdown-Behaves,
    (
      (λ c v. stop-Behaves c v s),
      (
        wait-Behaves,
        (
          reboot-Behaves,
          (
            plain_Behaves UgvCommand.follow_path _ refl,
            (
              plain_Behaves UgvCommand.go_to _ refl,
              (
                plain_Behaves UgvCommand.safe_mode _ refl,
                (
                  plain_Behaves UgvCommand.self_check _ refl,
                  (plain_Behaves UgvCommand.calibrate_sensors _ refl, (signal-Behaves, tt)),
                ),
              ),
            ),
          ),
        ),
      ),
    ),
  ),
)

abbrev all_plain : List (UgvCommand × String) → Bool
all_plain [] = true
all_plain ((cmd, label) ∷ ls) = is_plain cmd && all_plain ls

stub_handlers-Behave :
    (ls : List (UgvCommand × String)) → all_plain ls ≡ true → All BehavesPair (map stub_handler ls)
stub_handlers-Behave [] e = tt
stub_handlers-Behave ((cmd, label) ∷ ls) e =
    (plain_Behaves cmd label (ground (arith, e)), stub_handlers-Behave ls (ground (arith, e)))

default_handlers-Behave : (s : RejectReason) → All BehavesPair (default_handlers s)
unfolding default_handlers stub_labels
default_handlers-Behave s =
    All-append BehavesPair (written_handlers s) (map stub_handler stub_labels)
      (written_handlers-Behave s) (stub_handlers-Behave stub_labels refl)

All-follows :
    {A : Type 0} (P Q : A → Type 0) (xs : List A) → ((x : A) → P x → Q x) → All P xs → All Q xs
All-follows P Q [] f h = tt
All-follows P Q (x ∷ xs) f (p, h) = (f x p, All-follows P Q xs f h)

-- What follows from `BehavesPair` holds of every entry, once the defaults are registered.
pub registered-All :
    (E : ℕ × CommandHandler Vehicle → Type 0) (s : RejectReason) (r : CommandRouter Vehicle)
    → ((p : UgvCommand × CommandHandler Vehicle) → BehavesPair p → E (key p.0, p.1))
    → All E r.handlers
    → All E (register_default_command_handlers s r).handlers
unfolding register_default_command_handlers
registered-All E s r f q =
    registers-All E (default_handlers s) r
      (All-follows BehavesPair (λ p. E (key p.0, p.1)) (default_handlers s) f
        (default_handlers-Behave s))
      q
