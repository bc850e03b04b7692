-- ===== src/Drive/Proxy/Examples.antt =====
-- A part of a film is handed on.
use pan_client.Base.{ℕ, ◌≡◌, refl, true, none, some, [], ◌∷◌, Text, codes, text_eq, ok}
use pan_client.Drive.{PanObj}
use pan_client.Drive.Proxy.{HttpResponse, base_proxy_file}

abbrev film : PanObj
film = record {
  id = codes "f";
  name = codes "film";
  path = codes "/";
  size = 9;
  type = codes "file";
  parent_id = none;
}

abbrev part_of_film : HttpResponse
part_of_film = record {
  status_code = 206;
  content_length = 2;
  headers = (codes "Content-Range", codes "bytes 0-1/9" ∷ []) ∷ (codes "Date", []) ∷ [];
  body = codes "ab";
}

-- The server does not say that it takes ranges, but answers with one.
proxy_film :
    base_proxy_file {S = Text} {D = ℕ}
      (λ file s. (ok (codes "u"), s))
      (λ url. none)
      (λ url range s. (ok part_of_film, s))
      (λ bytes s. (ok tt, bytes))
      (record { remote_file = some film; range_header = codes "bytes=0-1"; has_writer = true })
      []
    ≡ (
      (
        some (record {
          status_code = 206;
          content_type = [];
          content_length = 2;
          content_range = codes "bytes 0-1/9";
          accept_ranges = codes "bytes";
          total_size = 9;
          headers = (codes "Content-Range", codes "bytes 0-1/9") ∷ [];
          body = none;
        }),
        none,
      ),
      codes "ab",
    )
unfolding base_proxy_file text_eq
proxy_film = refl
