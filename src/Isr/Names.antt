-- ===== src/Isr/Names.antt =====
-- Opcodes, their names and their descriptions fit together (src/base/request.h).
use Prim.Native.String.{String}
use text.Mathlib.Text.{◌==◌ as str_eq}
use text.Mathlib.TextEquality.{eq_iff}
use mathlib.Core.Path.{subst₂}
use aim_simulator.Base.{
  ◌≡◌, refl, true, Option, none, some, List, [], ◌∷◌, arith, ok, err, configuration_error, Error,
  or_fail, ◌⊎◌, inl, inr, ◌↔◌, Bool-cases, All,
}
use aim_simulator.Isr.Table.{
  Opcode, AimIsr, opcode_str_to_aim_isr, aim_opcode_to_str, min, max, isr_rd_mac, isr_rd_af,
  isr_eoc, isr_sync,
}
use aim_simulator.Isr.Info.{
  lookup_str, convert_opcode_str_to_aim_isr, convert_aim_opcode_to_aim_isr,
}

-- What a lookup finds is an entry of the map.
lookup_str-All {ℓ κ} :
    {A : Type ℓ} (P : String → A → Type κ) (k : String) (m : List (String × A)) {a : A}
    → All (λ e. P e.0 e.1) m
    → lookup_str k m ≡ some a
    → P k a
unfolding lookup_str
lookup_str-All P k [] all h = absurd (ground arith)
lookup_str-All P k ((j, b) ∷ m) {a} all h = elim (Bool-cases (str_eq j k)) [
  | inl same ↦ subst₂ P ((eq_iff j k).0 same) (let e : b ≡ a = ground arith in e) all.0
  | inr other ↦ lookup_str-All P k m all.1 (ground arith)
]

-- What `aim_opcode_to_str` names, the other map finds.
pub IsNamed : Opcode → Option String → Type 0
IsNamed o none = convert_aim_opcode_to_aim_isr o ≡ err configuration_error
IsNamed o (some s) =
    (isr : AimIsr) × (convert_aim_opcode_to_aim_isr o ≡ ok isr)
    × (convert_opcode_str_to_aim_isr s ≡ ok isr)
    × (isr.opcode ≡ o)

aim_opcode-IsNamed : (o : Opcode) → IsNamed o (aim_opcode_to_str o)
unfolding IsNamed convert_aim_opcode_to_aim_isr convert_opcode_str_to_aim_isr
aim_opcode-IsNamed min = refl
aim_opcode-IsNamed max = refl
aim_opcode-IsNamed _ = (_, refl, refl, refl)

-- An opcode with a name can be looked up by opcode and by name, with one result, which describes
-- that opcode; an opcode without a name is a configuration error.
pub opcode_roundtrip :
    (o : Opcode) {s : String}
    → aim_opcode_to_str o ≡ some s
    → (isr : AimIsr) × (convert_aim_opcode_to_aim_isr o ≡ ok isr)
      × (convert_opcode_str_to_aim_isr s ≡ ok isr)
      × (isr.opcode ≡ o)
unfolding IsNamed
opcode_roundtrip o {s} h = rw h at (aim_opcode-IsNamed o)

or_fail-eq-ok {ℓ} :
    {A : Type ℓ} (o : Option A) (e : Error) {a : A} → or_fail o e ≡ ok a → o ≡ some a
or_fail-eq-ok none e h = absurd (ground arith)
or_fail-eq-ok (some b) e h = ground arith

abbrev NamesItself : String → AimIsr → Type 0
NamesItself s isr = aim_opcode_to_str isr.opcode ≡ some s

-- Whatever name the parser accepts, it is the name of the opcode that it yields.
pub opcode_str_sound :
    (s : String) {isr : AimIsr}
    → convert_opcode_str_to_aim_isr s ≡ ok isr
    → aim_opcode_to_str isr.opcode ≡ some s
unfolding convert_opcode_str_to_aim_isr
opcode_str_sound s {isr} h =
    lookup_str-All NamesItself s opcode_str_to_aim_isr
      (
        refl,
        (
          refl,
          (
            refl,
            (
              refl,
              (
                refl,
                (
                  refl,
                  (
                    refl,
                    (
                      refl,
                      (refl, (refl, (refl, (refl, (refl, (refl, (refl, (refl, (refl, tt))))))))),
                    ),
                  ),
                ),
              ),
            ),
          ),
        ),
      )
      (or_fail-eq-ok (lookup_str s opcode_str_to_aim_isr) _ h)

-- The opcodes that hold the memory system back until the controllers have served them.
abbrev pub IsBlocking : Opcode → Type 0
IsBlocking o = (o ≡ isr_rd_mac) ⊎ (o ≡ isr_rd_af) ⊎ (o ≡ isr_sync) ⊎ (o ≡ isr_eoc)

-- An opcode blocks exactly if it is RD_MAC, RD_AF, SYNC or EOC.
pub IsBlocking-iff :
    (o : Opcode) {isr : AimIsr}
    → convert_aim_opcode_to_aim_isr o ≡ ok isr
    → (isr.aim_dma_blocking ≡ true) ↔ IsBlocking o
unfolding convert_aim_opcode_to_aim_isr
IsBlocking-iff min h = absurd (ground arith)
IsBlocking-iff _ h = (λ b. ground arith, λ b. ground arith)
