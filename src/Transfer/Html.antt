-- ===== src/Transfer/Html.antt =====
-- The two pages of HtmlResponse.h that report an error.
use image_app.Common.{◌++◌, Bytes, codes}

unfoldable pub bad_request : Bytes
bad_request =
    codes "<!DOCTYPE HTML PUBLIC>\n"
    ++ (codes "<html>\n"
        ++ (codes "\n"
            ++ (codes "<head>\n"
                ++ (codes "   <title>400 Bad Request</title>\n"
                    ++ (codes "</head>\n"
                        ++ (codes "\n"
                            ++ (codes "<body>\n"
                                ++ (codes "   <h1>Bad Request</h1>\n"
                                    ++ (codes
                                          "   <p>Your browser sent a request that this server could not understand.<p>\n"
                                        ++ (codes
                                              "   <p>The request line contained invalid characters following the protocol string.<p>\n"
                                            ++ (codes "</body>\n"
                                                ++ (codes "\n" ++ (codes "</html>")))))))))))))

unfoldable pub service_unavailable : Bytes
service_unavailable =
    codes "<!DOCTYPE HTML PUBLIC>\n"
    ++ (codes "<html>\n"
        ++ (codes "\n"
            ++ (codes "<head>\n"
                ++ (codes "   <title>503 Service Unavailable</title>\n"
                    ++ (codes "</head>\n"
                        ++ (codes "\n"
                            ++ (codes "<body>\n"
                                ++ (codes "   <h1>Service unavailablet</h1>\n"
                                    ++ (codes
                                          "   <p>Your browser sent a request that this server could not satisfy.<p>\n"
                                        ++ (codes "   <p>Please retry in a few seconds<p>\n"
                                            ++ (codes "</body>\n"
                                                ++ (codes "\n" ++ (codes "</html>")))))))))))))
