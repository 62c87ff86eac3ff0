-- ===== src/Protos/Http2/Message.antt =====
-- include/wavex/protos/http/http2codec.hpp, the structs request and response: a view into a string that the
-- message holds is that string. `method_type` and the other fields are those of the code.
use wave_x.Prelude.{ℕ, List, [], chars}
use wave_x.Protos.Http1.{Header, Method}

pub record Request : Type 0 where
  pub method_type : Method
  pub target : List ℕ
  pub scheme : List ℕ
  pub authority : List ℕ
  pub protocol : List ℕ
  pub headers : List Header
  pub body : List ℕ
  pub stream_id : ℕ

abbrev pub new_request : Request
new_request = record {
  method_type = Method.unknown;
  target = [];
  scheme = chars "https";
  authority = [];
  protocol = [];
  headers = [];
  body = [];
  stream_id = 1;
}

pub record Response : Type 0 where
  pub status_code : ℕ
  pub status_text : List ℕ
  pub headers : List Header
  pub body : List ℕ
  pub stream_id : ℕ

abbrev pub new_response : Response
new_response = record {
  status_code = 200;
  status_text = chars "OK";
  headers = [];
  body = [];
  stream_id = 1;
}
