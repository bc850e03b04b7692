-- ===== src/Drive/Proxy.antt =====
-- pan/driver.go: `BaseProxyFile`, which hands the answer of the server on. Package http is not of this
-- repository: a request is its address with the range that it asks for.
mod Examples
use pan_client.Base.{
  ℕ, ◌==◌, Bool, true, false, not, ◌&&◌, if◌then◌else◌, Option, none, some, List, [], ◌∷◌, Text,
  codes, text_eq, is_empty, Result, ok, err,
}
use pan_client.Errors.{GoError, only_error, only_msg}
use pan_client.Drive.{PanObj, file_type, Call}
use pan_client.Drive.Tree.{DownloadFileReq}

pub record ProxyFileReq : Type 0 where
  pub remote_file : Option PanObj
  pub range_header : Text
  pub has_writer : Bool

-- The answer of the server; a name of a header has all its values.
pub record HttpResponse : Type 0 where
  pub status_code : ℕ
  pub content_length : ℕ
  pub headers : List (Text × List Text)
  pub body : Text

pub record ProxyFileResp : Type 0 where
  pub status_code : ℕ
  pub content_type : Text
  pub content_length : ℕ
  pub content_range : Text
  pub accept_ranges : Text
  pub total_size : ℕ
  pub headers : List (Text × Text)
  pub body : Option Text

abbrev first_value : List Text → Text
first_value [] = []
first_value (v ∷ vs) = v

-- `Header.Get` of a name in its canonical spelling.
unfoldable pub get_header : List (Text × List Text) → Text → Text
get_header [] name = []
get_header ((k, vs) ∷ headers) name =
    if text_eq k name then first_value vs else get_header headers name

-- The first value of each header that has one.
unfoldable pub first_values : List (Text × List Text) → List (Text × Text)
first_values [] = []
first_values ((k, []) ∷ headers) = first_values headers
first_values ((k, v ∷ vs) ∷ headers) = (k, v) ∷ first_values headers

unfoldable pub proxy_resp : PanObj → HttpResponse → ProxyFileResp
unfolding get_header first_values
proxy_resp file resp =
    let accept = get_header resp.headers (codes "Accept-Ranges") in
    record {
      status_code = resp.status_code;
      content_type = get_header resp.headers (codes "Content-Type");
      content_length = resp.content_length;
      content_range = get_header resp.headers (codes "Content-Range");
      accept_ranges =
          if is_empty accept && (resp.status_code == 206) then codes "bytes" else accept;
      total_size = file.size;
      headers = first_values resp.headers;
      body = none;
    }

-- The answer, which a failed copy returns beside its error.
abbrev pub Proxied : Type 0 → Type 0
Proxied D = Option ProxyFileResp × Option (GoError D)

-- `new_request` is the error of `http.NewRequest`, if it gives one; `copy` writes a body to the writer.
module _ {S D : Type 0} (download_url : PanObj → Call S D Text)
    (new_request : Text → Option (GoError D))
    (do_request : Text → Option Text → Call S D HttpResponse)
    (copy : Text → Call S D (Unit {0})) where
  after_copy : ProxyFileResp → Result (GoError D) (Unit {0}) × S → Proxied D × S
  after_copy resp (err e, s) = ((some resp, some (only_error e)), s)
  after_copy resp (ok u, s) = ((some resp, none), s)

  answer_with : ProxyFileReq → PanObj → Result (GoError D) HttpResponse × S → Proxied D × S
  unfolding proxy_resp after_copy
  answer_with req file (err e, s) = ((none, some (only_error e)), s)
  answer_with req file (ok resp, s) =
      if req.has_writer
      then after_copy (proxy_resp file resp) (copy resp.body s)
      else ((some (record (proxy_resp file resp) { body = some resp.body }), none), s)

  request_url : ProxyFileReq → PanObj → Result (GoError D) Text × S → Proxied D × S
  unfolding answer_with
  request_url req file (err e, s) = ((none, some e), s)
  request_url req file (ok url, s) = elim (new_request url) [
    | some e ↦ ((none, some (only_error e)), s)
    | none ↦
        answer_with req file
          (do_request url (if is_empty req.range_header then none else some req.range_header) s)
  ]

  unfoldable pub base_proxy_file : ProxyFileReq → S → Proxied D × S
  unfolding request_url
  base_proxy_file req s = elim req.remote_file [
    | none ↦ ((none, some (only_msg (codes "only support file type"))), s)
    | some file ↦
        if text_eq file.type file_type
        then request_url req file (download_url file s)
        else ((none, some (only_msg (codes "only support file type"))), s)
  ]
