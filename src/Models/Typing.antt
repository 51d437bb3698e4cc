-- ===== src/Models/Typing.antt =====
-- The types of what the models of the fetch client decode, from the types that the axios client gives
-- the same JSON. The two clients come from two versions of the API: for the inputs and outputs of
-- pipelines, runs and their parts the axios client has objects where the fetch client has texts.
pub mod Common
pub mod Meta
pub mod Discovery
pub mod Pipeline
pub mod Run
pub mod Task
pub mod Lists
use pipeline_operator.Prelude.{String, Bool, ◌||◌, str_eq, if◌then◌else◌}
use pipeline_operator.Types.{
  Shape, string_type, number_type, boolean_type, date_type, object_type, array_of, record_of,
  interface, Member, must, may, Members, done, ◌⊕◌,
}
use pipeline_operator.Axios.Interfaces.Specs.{pipeline_spec_inputs_inner_interface}

-- An interface of the fetch client with the inputs and outputs of the axios client.
unfoldable mutual
  pub revised : Members → Members
  revised done = done
  revised (m ⊕ ms) = revised_member m ⊕ revised ms

  revised_member : Member → Member
  revised_member (must key s) = must key (revised_shape s)
  revised_member (may key s) = may key (
      if str_eq key "inputs" || str_eq key "outputs"
      then array_of (interface pipeline_spec_inputs_inner_interface)
      else revised_shape s)

  revised_shape : Shape → Shape
  revised_shape (array_of s) = array_of (revised_shape s)
  revised_shape (record_of s) = record_of (revised_shape s)
  revised_shape (interface ms) = interface (revised ms)
  revised_shape s = s
