-- ===== src/Messaging/Replies.antt =====
-- src/dispatch_core/messaging/replies.py. A button is made by `check_button`, which may raise.
use dispatch_core.Shared.{
  ℕ, Bool, true, false, not, ◌&&◌, String, is_empty, Option, none, some, List,
}
use dispatch_core.Shared.Dict.{Dict}
use dispatch_core.Domain.Errors.{Result, ok, raise_if, ◌>>◌, value_error, Invalid}

-- The row is never negative here.
pub record ReplyButton : Type 0 where
  pub text : String
  pub action : String
  pub payload : Dict String String
  pub allowed_role : Option String
  pub row : ℕ
  pub url : Option String
  pub request_location : Bool

pub record Reply : Type 0 where
  pub text : String
  pub buttons : List ReplyButton

abbrev is_given : {A : Type 0} → Option A → Bool
is_given none = false
is_given (some a) = true

-- `__post_init__`
unfoldable pub check_button : ReplyButton → Result ReplyButton
check_button b =
    raise_if (is_empty b.text) (value_error Invalid.button_text_required)
    >> raise_if (is_given b.url && b.request_location) (value_error Invalid.url_and_location)
    >> raise_if (is_empty b.action && (not (is_given b.url) && not b.request_location))
        (value_error Invalid.button_action_required)
    >> ok b
