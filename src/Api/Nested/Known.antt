-- ===== src/Api/Nested/Known.antt =====
-- The parameters and the state as messages that others hold (api/feemarket/feemarket/v1: tx.pulsar.go and
-- genesis.pulsar.go).
use feemarket.Prelude.{◌≤◌, ◌≡◌, ◌∙◌, sym, Bool, Option, none, some, arith}
use feemarket.Prelude.Int.{int64_max}
use feemarket.Sdk.{Bytes}
use feemarket.Api.{Runtime, RuntimeLaws}
use feemarket.Api.Nested.{Options, OptionsLaws, size_message}
use feemarket.Api.Nested.Fields.{Encoded, Written, nil-Written, message-Written}
use feemarket.Api.Params.{Params, empty as empty_params}
use feemarket.Api.Params.Methods as ParamsMethods
use feemarket.Api.Params.Round.{IsMessage as IsParams, unmarshal-marshal_params}
use feemarket.Api.State.{State, empty as empty_state}
use feemarket.Api.State.Methods as StateMethods
use feemarket.Api.State.Round.{IsMessage as IsState, nil_if_empty, unmarshal-marshal_state}

-- Nil, or parameters that a Go program can hold, with no unknown fields.
pub data HoldsParams : Option Params → Type 0 where
  no_params : HoldsParams none
  some_params : {p : Params} → IsParams p → p.unknown_fields ≡ none → HoldsParams (some p)

pub data HoldsState ⦃rt : Runtime⦄ : Option State → Type 0 where
  no_state : HoldsState none
  some_state : {s : State} → IsState s → s.unknown_fields ≡ none → HoldsState (some s)

-- What the functions of `ProtoMethods` are to the package `proto`.
abbrev pub ParamsOptions : ⦃rt : Runtime⦄ → Options Params → Type 0
ParamsOptions o = OptionsLaws o ParamsMethods.size ParamsMethods.marshal ParamsMethods.unmarshal

abbrev pub StateOptions : ⦃rt : Runtime⦄ → Options State → Type 0
StateOptions o = OptionsLaws o StateMethods.size StateMethods.marshal StateMethods.unmarshal

-- A state that has been decoded has nil for an empty window.
abbrev pub decoded_state : Option State → Option State
decoded_state none = none
decoded_state (some s) = some (record s { window = nil_if_empty s.window })

module _ ⦃rt : Runtime⦄ ⦃laws : RuntimeLaws⦄ where
  params-Encoded :
      (o : Options Params) (proto : ParamsOptions o) (discard : Bool) (p : Params)
      → IsParams p
      → p.unknown_fields ≡ none
      → o.size (some p) ≤ int64_max
      → Encoded o discard empty_params p p
  params-Encoded o proto discard p h known small =
      let (w, written, size_ok, back) =
        unmarshal-marshal_params discard p h (omega (arith, proto.size_eq (some p))) known in
      record {
        encoded = w;
        marshal_ok = proto.marshal_eq (some p) ∙ written;
        length_ok = size_ok ∙ sym (proto.size_eq (some p));
        unmarshal_ok = proto.unmarshal_eq discard w (some empty_params) ∙ back;
      }

  state-Encoded :
      (o : Options State) (proto : StateOptions o) (discard : Bool) (s : State)
      → IsState s
      → s.unknown_fields ≡ none
      → o.size (some s) ≤ int64_max
      → Encoded o discard empty_state s (record s { window = nil_if_empty s.window })
  state-Encoded o proto discard s h known small =
      let (w, written, size_ok, back) =
        unmarshal-marshal_state discard s h (omega (arith, proto.size_eq (some s))) known in
      record {
        encoded = w;
        marshal_ok = proto.marshal_eq (some s) ∙ written;
        length_ok = size_ok ∙ sym (proto.size_eq (some s));
        unmarshal_ok = proto.unmarshal_eq discard w (some empty_state) ∙ back;
      }

  -- The field 1 with parameters, or with nil.
  pub params-Written :
      {N : Type 0} (o : Options Params) (proto : ParamsOptions o) (discard : Bool)
      (put : Option Params → N) (x : Option Params) (tail : Bytes)
      → HoldsParams x
      → size_message o x ≤ int64_max
      → Written o discard empty_params 1 put x x tail
  unfolding size_message
  params-Written o proto discard put none tail no_params small =
      nil-Written o discard empty_params 1 put tail
  params-Written o proto discard put (some p) tail (some_params h known) small =
      message-Written o discard empty_params 1 put p p tail (omega arith) (omega arith)
        (params-Encoded o proto discard p h known (omega arith)) (omega arith)

  -- The field 2 with a state, or with nil.
  pub state-Written :
      {N : Type 0} (o : Options State) (proto : StateOptions o) (discard : Bool)
      (put : Option State → N) (x : Option State) (tail : Bytes)
      → HoldsState x
      → size_message o x ≤ int64_max
      → Written o discard empty_state 2 put x (decoded_state x) tail
  unfolding size_message
  state-Written o proto discard put none tail no_state small =
      nil-Written o discard empty_state 2 put tail
  state-Written o proto discard put (some s) tail (some_state h known) small =
      message-Written o discard empty_state 2 put s (record s { window = nil_if_empty s.window })
        tail (omega arith) (omega arith) (state-Encoded o proto discard s h known (omega arith))
        (omega arith)
