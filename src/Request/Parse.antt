-- ===== src/Request/Parse.antt =====
-- `struct request_t` and `parse_request` of Request.c and Request.h.
pub mod Results
pub mod Whole
use image_app.Common.{
  ℕ, ◌≡◌, refl, Option, none, some, List, [], ◌∷◌, ◌++◌, Bytes, codes, Outcome, ok, exit, fault,
  ◌>>=◌, ℤ, pos,
}
use image_app.CString.{cstr}
use image_app.Request.Status.{
  RequestStatus, message_not_correct, icon_requested, empty_path, image_requested, request_received,
}
use image_app.Request.Lines.{get_command_line, parse_command, get_accept_line, get_user_agent}
use image_app.Request.Name.{Parsed, parse_name}
use image_app.Request.Accept.{Quality, ImageNode, get_list_accept_image}

abbrev pub icon_name : Bytes
icon_name = codes "favicon.ico"

module _ (Q : Quality) where
  -- A pointer that is still null is `none`. The type of `request`, which calloc fills with zeros.
  pub record Request : Type 0 where
    pub width : ℤ
    pub height : ℤ
    pub cmd : RequestStatus
    pub user_agent : Option Bytes
    pub image_name : Option Bytes
    pub image_list : Option (List (ImageNode Q))
    pub cache_name : Option Bytes
    pub ext : Option Bytes
    pub colors : ℤ

  abbrev pub new_request : Request
  new_request = record {
    width = pos 0;
    height = pos 0;
    cmd = RequestStatus.ok;
    user_agent = none;
    image_name = none;
    image_list = none;
    cache_name = none;
    ext = none;
    colors = pos 0;
  }

  -- What follows the request line of a request for an image.
  pub parse_headers : Bytes → Request → Outcome (RequestStatus × Request)
  parse_headers message request = do
    accept_block ← get_accept_line message
    agent_block ← get_user_agent message
    accept_line ← cstr accept_block
    user_agent ← cstr agent_block
    nodes ← get_list_accept_image Q accept_line
    ok (request_received, record request { user_agent = some user_agent; image_list = some nodes })

  -- The name and the extension are in place where `parse_name` has written them.
  named : Request → Option (Bytes × Bytes) → Request
  named request none = request
  named request (some (name, ext)) = record request { image_name = some name; ext = some ext }

  dispatch : Bytes → Request → Parsed → Outcome (RequestStatus × Request)
  unfolding named
  dispatch message request p = elim p.status [
    | icon_requested ↦ ok (icon_requested, record request { image_name = some icon_name })
    | empty_path ↦ ok (icon_requested, record request { image_name = some icon_name })
    | message_not_correct ↦ ok (message_not_correct, record request { image_name = some [] })
    | _ ↦ parse_headers message (named request p.found)
  ]

  unfoldable pub parse_request : Bytes → Outcome (RequestStatus × Request)
  unfolding dispatch parse_headers named
  parse_request message = do
    first_line ← get_command_line message
    line ← cstr first_line
    p ← parse_name first_line
    dispatch message (record new_request { cmd = parse_command line }) p
