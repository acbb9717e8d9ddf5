-- ===== src/Gates/Registry/Startup.antt =====
-- Registration: a refused tool changes nothing, and an accepted one is found and hides no other.
use aegisops_ai.Base.{◌≡◌, ◌≢◌, true, false, none, some, arith, String, str_eq_iff}
use aegisops_ai.Gates.Registry.{Host, ToolDescriptor, Registry, register, lookup_tool, get}

module _ (host : Host) (d : ToolDescriptor) (r : Registry) where
  -- A registration that fails leaves the registry as it was; one that succeeds had a name that was
  -- free, and from then on that name finds the tool while every other name finds what it found.
  pub register_sound :
      ((register host d r).1 ≡ false → (register host d r).0 ≡ r)
      × ((register host d r).1 ≡ true
          → (lookup_tool r d.name ≡ none)
            × (lookup_tool (register host d r).0 d.name ≡ some d)
            × ((name : String)
                → name ≢ d.name
                → lookup_tool (register host d r).0 name ≡ lookup_tool r name))
  unfolding register lookup_tool get
  register_sound = (
    ground arith,
    λ h. (
      ground arith,
      ground (arith, str_eq_iff d.name d.name),
      λ name ne. ground (arith, str_eq_iff d.name name),
    ),
  )
