-- ===== src/FitData/Parameters/Template.antt =====
-- The parameters of a board that is made of a template.
use fit_fred.Common.{ℕ, ◌+◌, ◌%◌, ◌^◌, ◌≡◌, Option, none, some, List}
use fit_fred.Board.Defs.{ParameterInfo, Board}

-- The first result, if there is one, and another result otherwise.
abbrev or_else : {A : Type 0} → Option A → Option A → Option A
or_else none other = other
or_else (some a) other = some a

module _ {Double : Type 0} where
  -- A parameter of the template on a board at an address: its register is moved by the address, and it
  -- has no values yet.
  abbrev pub at_board : ℕ → Option (ParameterInfo Double) → Option (ParameterInfo Double)
  at_board address none = none
  at_board address (some p) = some (record p {
    base_address = (p.base_address + address) % 2 ^ 32;
    physical_value = none;
    electronic_value = none;
  })

  -- Only the parameters change.
  abbrev SameBut : Board Double → Board Double → Type 0
  SameBut after before =
      (after.name ≡ before.name)
      × (after.type ≡ before.type)
      × (after.address ≡ before.address)
      × (after.parent ≡ before.parent)
      × (after.environment ≡ before.environment)

  -- The parameters of the main board, which the boards behind it share.
  abbrev pub parameters_of : Option (Board Double) → Option (List (ParameterInfo Double))
  parameters_of none = none
  parameters_of (some board) = some board.parameters
